-- ===== src/Programs/Ls/Listing.antt =====
-- What ls writes, over any system that reads a directory entry by entry.
use Prim.Native.String.{String}
use mathlib.Core.List.{append_assoc, append-nil}
use mp.Base.{
  ℕ, zero, suc, ◌+◌, ◌≤◌, ◌<◌, ◌≡◌, ◌≢◌, refl, sym, ap, ◌∙◌, arith, some, none, >>=-some, List, [],
  ◌∷◌, ◌++◌, minus_one, subst, false, ◌==◌, add32,
}
use mp.Memory.{Mem, store}
use mp.FileSystem.{bytes_at}
use mp.Programs.{Os}
use mp.Programs.Pieces.{Prints, bytes_at-append, bytes_at-same}
use mp.Programs.Ls.{ls, ls_loop, ls_round}

-- A system in which descriptor `fd` reads the names of a directory with `n` entries one after the
-- other, and then nothing: the name of entry `k` has `len k` bytes, `name k`. The program can store
-- into its buffer.
pub record Lists {S : Type 0} (os : Os S) (buf fd n : ℕ) (len : ℕ → ℕ) (name : ℕ → Mem)
    (At : S → ℕ → List ℕ → Type 0) : Type 0 where
  pub reads :
      (s : S) (k : ℕ) (out : List ℕ)
      → At s k out
      → k < n
      → (s' : S) × (os.read s fd buf 32 ≡ some (len k, s'))
        × (0 < len k)
        × (len k ≤ 32)
        × At s' (k + 1) out
        × ((j : ℕ) → j < len k → os.mem s' (buf + j) ≡ name k j)
  pub ends :
      (s : S) (out : List ℕ)
      → At s n out
      → (s' : S) × (os.read s fd buf 32 ≡ some (0, s')) × At s' n out
  pub stores :
      (s : S) (k j c : ℕ) (out : List ℕ)
      → At s k out
      → j ≤ 32
      → At (os.set_mem s (store (os.mem s) (buf + j) c)) k out
  pub holds : (s : S) (m : Mem) → os.mem (os.set_mem s m) ≡ m

-- The names of `left` entries from entry `k` on, a line each.
pub listing : (ℕ → ℕ) → (ℕ → Mem) → ℕ → ℕ → List ℕ
listing len name zero k = []
listing len name (suc left) k =
    (bytes_at (len k) (name k) 0 ++ (10 ∷ [])) ++ listing len name left (k + 1)

module _ {S : Type 0} (os : Os S) (fuel : ℕ) (place : String → ℕ) (buf fd n : ℕ) (len : ℕ → ℕ)
    (name : ℕ → Mem) (At : S → ℕ → List ℕ → Type 0) (lists : Lists os buf fd n len name At)
    (prints : Prints os buf 33 At) where
  abbrev ended : S → ℕ → S
  ended s cnt = os.set_mem s (store (os.mem s) (buf + cnt) 10)

  -- The line that ls makes of a name.
  ended-line :
      (s : S) (k cnt : ℕ)
      → ((j : ℕ) → j < cnt → os.mem s (buf + j) ≡ name k j)
      → bytes_at (cnt + 1) (os.mem (ended s cnt)) buf ≡ bytes_at cnt (name k) 0 ++ (10 ∷ [])
  ended-line s k cnt bytes =
      let stored = store (os.mem s) (buf + cnt) 10 in
      let same : bytes_at cnt stored buf ≡ bytes_at cnt (name k) 0 =
        bytes_at-same cnt stored (name k) buf 0 (λ j lt.
          ground (arith, bytes j lt, ap (name k) (let e : 0 + j ≡ j = omega arith in e))) in
      let newline : stored (buf + cnt) ≡ 10 = ground arith in
      ap (λ m. bytes_at (cnt + 1) m buf) (lists.holds s stored)
      ∙ bytes_at-append cnt 1 stored buf
      ∙ ap (λ l. l ++ (stored (buf + cnt) ∷ [])) same
      ∙ ap (λ c. bytes_at cnt (name k) 0 ++ (c ∷ [])) newline

  ls_round-writes :
      (cnt v : ℕ) (s s' : S)
      → cnt ≤ 32
      → os.write (ended s cnt) 1 buf (cnt + 1) ≡ some (v, s')
      → v ≢ minus_one
      → ls_round os fuel place buf cnt s ≡ some (none, s')
  unfolding ls_round
  ls_round-writes cnt v s s' small writes fine =
      let read_well : (cnt == minus_one) ≡ false = ground arith in
      let wrote : (v == minus_one) ≡ false = ground arith in
      let next : add32 cnt 1 ≡ cnt + 1 = omega arith in
      rw (read_well, next) (>>=-some _ writes ∙ rw wrote refl)

  ls_loop-next :
      (rounds cnt : ℕ) (s s1 s2 : S)
      → os.read s fd buf 32 ≡ some (cnt, s1)
      → cnt ≢ 0
      → ls_round os fuel place buf cnt s1 ≡ some (none, s2)
      → ls_loop os fuel place buf (suc rounds) fd s ≡ ls_loop os fuel place buf rounds fd s2
  unfolding ls_loop
  ls_loop-next rounds cnt s s1 s2 reads some_bytes round =
      let more : (cnt == 0) ≡ false = ground arith in >>=-some _ reads ∙ rw more (>>=-some _ round)

  pub ls_loop-Lists :
      (rounds left k : ℕ) (s : S) (out : List ℕ)
      → At s k out
      → k + left ≡ n
      → left < rounds
      → (s' : S) × (ls_loop os fuel place buf rounds fd s ≡ some (0, s'))
        × At s' n (out ++ listing len name left k)
  unfolding listing
  ls_loop-Lists zero left k s out here e enough = absurd (omega arith)
  ls_loop-Lists (suc rounds) zero k s out here e enough =
      let (s1, reads, here1) =
        lists.ends s out (subst (λ i. At s i out) (let q : k ≡ n = omega arith in q) here) in
      (s1, (unfold ls_loop in rw reads refl), subst (λ l. At s1 n l) (sym (append-nil out)) here1)
  ls_loop-Lists (suc rounds) (suc left) k s out here e enough =
      let (s1, reads, pos, small, here1, bytes) = lists.reads s k out here (omega arith) in
      let here2 = lists.stores s1 (k + 1) (len k) 10 out here1 small in
      let (v, s2, writes, fine, here3) =
        prints.writes (ended s1 (len k)) (k + 1) (len k + 1) out here2 (omega arith)
          (omega arith) in
      let line = bytes_at (len k + 1) (os.mem (ended s1 (len k))) buf in
      let (s3, loops, here4) =
        ls_loop-Lists rounds left (k + 1) s2 (out ++ line) here3 (omega arith) (omega arith) in
      (
        s3,
        ls_loop-next rounds (len k) s s1 s2 reads (omega arith)
              (ls_round-writes (len k) v s1 s2 small writes fine)
            ∙ loops,
        subst (λ l. At s3 n l)
            (ap (λ l. (out ++ l) ++ listing len name left (k + 1)) (ended-line s1 k (len k) bytes)
              ∙ append_assoc out (bytes_at (len k) (name k) 0 ++ (10 ∷ []))
                  (listing len name left (k + 1)))
            here4,
      )

  -- After an open of the directory that succeeds, and with a round for each entry and one more: ls
  -- returns 0, and it has written exactly the names of all entries in order, each with a newline
  -- behind it.
  pub ls-Lists :
      (rounds : ℕ) (s s1 : S) (out : List ℕ)
      → os.open_file s (place ".") ≡ some (fd, s1)
      → fd ≢ minus_one
      → At s1 0 out
      → n < rounds
      → (s' : S) × (ls os fuel place buf rounds s ≡ some (0, s'))
        × At s' n (out ++ listing len name n 0)
  unfolding ls
  ls-Lists rounds s s1 out opens fine here enough =
      let (s', loops, there) = ls_loop-Lists rounds n 0 s1 out here (omega arith) enough in
      let opened : (fd == minus_one) ≡ false = ground arith in
      (s', >>=-some _ opens ∙ rw opened loops, there)
