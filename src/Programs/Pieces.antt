-- ===== src/Programs/Pieces.antt =====
-- Runs of bytes, and what the programs of src/syscalls need of the system's write.
use mp.Base.{
  ℕ, zero, suc, ◌+◌, ◌≤◌, ◌<◌, ◌≡◌, ◌≢◌, refl, ap, ◌∙◌, arith, some, List, ◌∷◌, ◌++◌, minus_one,
}
use mp.Memory.{Mem}
use mp.FileSystem.{bytes_at}
use mp.Programs.{Os}

pub bytes_at-append :
    (n k : ℕ) (m : Mem) (p : ℕ) → bytes_at (n + k) m p ≡ bytes_at n m p ++ bytes_at k m (p + n)
bytes_at-append zero k m p =
    let a : 0 + k ≡ k = omega arith in let b : p + 0 ≡ p = omega arith in rw (a, b) refl
bytes_at-append (suc n) k m p =
    ap (λ l. bytes_at l m p) (let e : suc n + k ≡ suc (n + k) = omega arith in e)
    ∙ ap (λ l. m p ∷ l)
        (bytes_at-append n k m (p + 1)
          ∙ ap (λ q. bytes_at n m (p + 1) ++ bytes_at k m q)
              (let e : p + 1 + n ≡ p + suc n = omega arith in e))

pub bytes_at-same :
    (n : ℕ) (m m' : Mem) (p q : ℕ)
    → ((j : ℕ) → j < n → m (p + j) ≡ m' (q + j))
    → bytes_at n m p ≡ bytes_at n m' q
bytes_at-same zero m m' p q h = refl
bytes_at-same (suc n) m m' p q h =
    let first : m p ≡ m' q = ground (arith, h 0 (omega arith)) in
    let rest : bytes_at n m (p + 1) ≡ bytes_at n m' (q + 1) =
      bytes_at-same n m m' (p + 1) (q + 1) (λ j lt. ground (arith, h (j + 1) (omega arith))) in
    cc

-- write on descriptor 1 from the buffer, of up to `most` bytes, appends them to what was written and
-- does not fail. `At s pos out` is an invariant of the states: `out` is written, and `pos` is how
-- far the program has read.
pub record Prints {S : Type 0} (os : Os S) (buf most : ℕ) (At : S → ℕ → List ℕ → Type 0)
    : Type 0 where
  pub writes :
      (s : S) (pos n : ℕ) (out : List ℕ)
      → At s pos out
      → 0 < n
      → n ≤ most
      → (v : ℕ) × (s' : S) × (os.write s 1 buf n ≡ some (v, s'))
        × (v ≢ minus_one)
        × At s' pos (out ++ bytes_at n (os.mem s) buf)
