-- ===== src/Programs/Cat/Copying.antt =====
-- What cat writes, over any system that reads a file piece by piece.
use Prim.Native.String.{String}
use mp.Base.{
  ℕ, zero, suc, ◌+◌, ◌-◌, ◌*◌, ◌≤◌, ◌<◌, ◌≡◌, ◌≢◌, refl, sym, ap, ◌∙◌, arith, min, some, List, ◌++◌,
  minus_one, none, >>=-some, subst, false, ◌==◌, ℕ_discrete,
}
use mathlib.Core.List.{append_assoc, append-nil}
use mp.Memory.{Mem}
use mp.FileSystem.{bytes_at}
use mp.Programs.{Os}
use mp.Programs.Pieces.{Prints, bytes_at-append, bytes_at-same}
use mp.Programs.Cat.{cat, cat_loop, cat_round}

-- A system in which descriptor `fd` reads a file of `size` bytes, `content`, from the position `pos` of
-- the invariant on.
pub record Serves {S : Type 0} (os : Os S) (buf fd size : ℕ) (content : Mem)
    (At : S → ℕ → List ℕ → Type 0) : Type 0 where
  pub reads :
      (s : S) (pos : ℕ) (out : List ℕ)
      → At s pos out
      → pos ≤ size
      → (s' : S) × (os.read s fd buf 1024 ≡ some (min 1024 (size - pos), s'))
        × At s' (pos + min 1024 (size - pos)) out
        × ((j : ℕ) → j < min 1024 (size - pos) → os.mem s' (buf + j) ≡ content (pos + j))

module _ {S : Type 0} (os : Os S) (fuel : ℕ) (place : String → ℕ) (buf fd size : ℕ) (content : Mem)
    (At : S → ℕ → List ℕ → Type 0) (serves : Serves os buf fd size content At)
    (prints : Prints os buf 1024 At) where
  -- How many bytes the read at `pos` delivers.
  abbrev count : ℕ → ℕ
  count pos = min 1024 (size - pos)

  cat_loop-end :
      (rounds pos : ℕ) (s : S) (out : List ℕ)
      → At s pos out
      → pos ≤ size
      → pos ≡ size
      → (s' : S) × (cat_loop os fuel place buf (suc rounds) fd s ≡ some (0, s'))
        × At s' size (out ++ bytes_at (size - pos) content pos)
  cat_loop-end rounds pos s out here le e =
      let (s1, reads, here1, bytes) = serves.reads s pos out here le in
      let none_left : count pos ≡ 0 = omega arith in
      let no_more : size - pos ≡ 0 = omega arith in
      (
        s1,
        (unfold cat_loop in rw (reads, none_left) refl),
        subst (λ p. At s1 p (out ++ bytes_at (size - pos) content pos))
            (let q : pos + count pos ≡ size = omega arith in q)
            (subst (λ l. At s1 (pos + count pos) l) (rw no_more (sym (append-nil out))) here1),
      )

  cat_round-writes :
      (cnt v : ℕ) (s s' : S)
      → cnt ≤ 1024
      → os.write s 1 buf cnt ≡ some (v, s')
      → v ≢ minus_one
      → cat_round os fuel place buf cnt s ≡ some (none, s')
  unfolding cat_round
  cat_round-writes cnt v s s' small writes fine =
      let read_well : (cnt == minus_one) ≡ false = ground arith in
      let wrote : (v == minus_one) ≡ false = ground arith in
      rw read_well (>>=-some _ writes ∙ rw wrote refl)

  cat_loop-next :
      (rounds cnt : ℕ) (s s1 s2 : S)
      → os.read s fd buf 1024 ≡ some (cnt, s1)
      → cnt ≢ 0
      → cat_round os fuel place buf cnt s1 ≡ some (none, s2)
      → cat_loop os fuel place buf (suc rounds) fd s ≡ cat_loop os fuel place buf rounds fd s2
  unfolding cat_loop
  cat_loop-next rounds cnt s s1 s2 reads some_bytes round =
      let more : (cnt == 0) ≡ false = ground arith in >>=-some _ reads ∙ rw more (>>=-some _ round)

  -- What is written so far, with the rest of the file behind.
  piece :
      (n k : ℕ) (m : Mem) (pos : ℕ) (out : List ℕ)
      → n + k ≡ size - pos
      → ((j : ℕ) → j < n → m (buf + j) ≡ content (pos + j))
      → (out ++ bytes_at n m buf) ++ bytes_at k content (pos + n)
        ≡ out ++ bytes_at (size - pos) content pos
  piece n k m pos out e bytes =
      append_assoc out (bytes_at n m buf) (bytes_at k content (pos + n))
      ∙ ap (λ l. out ++ l)
          (ap (λ l. l ++ bytes_at k content (pos + n)) (bytes_at-same n m content buf pos bytes)
            ∙ sym (bytes_at-append n k content pos)
            ∙ ap (λ l. bytes_at l content pos) e)

  pub cat_loop-Serves :
      (rounds pos : ℕ) (s : S) (out : List ℕ)
      → At s pos out
      → pos ≤ size
      → (size - pos) + 1024 ≤ rounds * 1024
      → (s' : S) × (cat_loop os fuel place buf rounds fd s ≡ some (0, s'))
        × At s' size (out ++ bytes_at (size - pos) content pos)
  cat_loop-Serves zero pos s out here le enough = absurd (omega arith)
  cat_loop-Serves (suc rounds) pos s out here le enough = elim (ℕ_discrete pos size) [
    | yes e ↦ cat_loop-end rounds pos s out here le e
    | no ne ↦
        let (s1, reads, here1, bytes) = serves.reads s pos out here le in
        let (v, s2, writes, fine, here2) =
          prints.writes s1 (pos + count pos) (count pos) out here1 (omega arith) (omega arith) in
        let (s3, loops, here3) =
          cat_loop-Serves rounds (pos + count pos) s2 (out ++ bytes_at (count pos) (os.mem s1) buf)
            here2 (omega arith) (omega arith) in
        (
          s3,
          cat_loop-next rounds (count pos) s s1 s2 reads (omega arith)
                (cat_round-writes (count pos) v s1 s2 (omega arith) writes fine)
              ∙ loops,
          subst (λ l. At s3 size l)
              (piece (count pos) (size - (pos + count pos)) (os.mem s1) pos out (omega arith) bytes)
              here3,
        )
  ]

  -- Over any system whose reads deliver a file piece by piece (Serves) and whose write of a piece
  -- appends it and does not return -1 (Prints), after getargs and an open that succeed, and with
  -- rounds for the whole file: cat returns 0, and it has written exactly the bytes of the file,
  -- from the first to the last, behind what was written before; it leaves the position at the end.
  pub cat-Serves :
      (rounds : ℕ) (s s1 s2 : S) (out : List ℕ)
      → os.getargs s buf 1024 ≡ some (0, s1)
      → os.open_file s1 buf ≡ some (fd, s2)
      → fd ≢ minus_one
      → At s2 0 out
      → size + 1024 ≤ rounds * 1024
      → (s' : S) × (cat os fuel place buf rounds s ≡ some (0, s'))
        × At s' size (out ++ bytes_at size content 0)
  unfolding cat
  cat-Serves rounds s s1 s2 out args opens fine here enough =
      let (s', loops, there) = cat_loop-Serves rounds 0 s2 out here (omega arith) (omega arith) in
      let opened : (fd == minus_one) ≡ false = ground arith in
      let all : size - 0 ≡ size = omega arith in
      (
        s',
        >>=-some _ args ∙ (>>=-some _ opens ∙ rw opened loops),
        subst (λ n. At s' size (out ++ bytes_at n content 0)) all there,
      )
