-- ===== src/Programs/Compare.antt =====
-- The two comparisons of syscalls/ece391support.c.
use mp.Base.{
  ℕ, zero, suc, ◌+◌, ◌≤◌, ◌<◌, ◌≡◌, ◌↔◌, refl, ap, ◌∙◌, arith, some, sub32, dec_lt, ℕ_discrete,
}
use mp.Memory.Text.{EndsAt, SameText, IsBytes, strncmp, strncmp_from}
use mp.Memory.Text.Laws.{strncmp-zero_iff}
use mp.Programs.{ece391_strcmp, ece391_strcmp_from, ece391_strncmp, ece391_strncmp_from}

byte_difference : (a b : ℕ) → a < 256 → b < 256 → (sub32 a b ≡ 0) ↔ (a ≡ b)
byte_difference a b ha hb = ground arith

module _ (s1 s2 : ℕ → ℕ) (b1 : IsBytes s1) (b2 : IsBytes s2) where
  -- What a comparison from index `i` on means, for a first string that ends at `n`.
  abbrev Compares : ℕ → ℕ → ℕ → Type 0
  Compares n i v = (v ≡ 0) ↔ ((k : ℕ) → i ≤ k → k ≤ n → s1 k ≡ s2 k)

  ece391_strcmp_from-Compares :
      (fuel n i : ℕ)
      → EndsAt s1 n
      → i ≤ n
      → n < i + fuel
      → (v : ℕ) × (ece391_strcmp_from fuel s1 s2 i ≡ some v) × Compares n i v
  unfolding ece391_strcmp_from
  ece391_strcmp_from-Compares zero n i e h f = absurd (omega arith)
  ece391_strcmp_from-Compares (suc fuel) n i e h f = elim (ℕ_discrete (s1 i) (s2 i)) [
    | no differ ↦ (
      sub32 (s1 i) (s2 i),
      ground arith,
      (
        λ z. absurd (differ ((byte_difference (s1 i) (s2 i) (b1 i) (b2 i)).0 z)),
        λ all. absurd (differ (all i (omega arith) h)),
      ),
    )
    | yes same ↦ elim (dec_lt i n) [
      | no last ↦
          let q : i ≡ n = omega arith in
          let ended : s1 i ≡ 0 = ap s1 q ∙ e.nul in
          (0, ground arith, (λ z. λ k lo hi. let r : k ≡ i = omega arith in rw r same, λ all. refl))
      | yes more ↦
          let rest = ece391_strcmp_from-Compares fuel n (i + 1) e (omega arith) (omega arith) in
          (
            rest.0,
            ground (arith, e.before i more, rest.1),
            (
              λ z. λ k lo hi. elim (ℕ_discrete k i) [
                | yes r ↦ rw r same
                | no r ↦ rest.2.0 z k (omega arith) hi
              ],
              λ all. rest.2.1 (λ k lo hi. all k (omega arith) hi),
            ),
          )
    ]
  ]

  -- On strings of bytes, the first with its NUL at index `n`, and with fuel above `n`:
  -- ece391_strcmp returns, and what it returns is 0 exactly when the strings agree up to that NUL.
  pub ece391_strcmp-zero_iff :
      (fuel n : ℕ)
      → EndsAt s1 n
      → n < fuel
      → (v : ℕ) × (ece391_strcmp fuel s1 s2 ≡ some v) × ((v ≡ 0) ↔ ((k : ℕ) → k ≤ n → s1 k ≡ s2 k))
  unfolding ece391_strcmp
  ece391_strcmp-zero_iff fuel n e h =
      let done = ece391_strcmp_from-Compares fuel n 0 e (omega arith) (omega arith) in
      (
        done.0,
        done.1,
        (λ z. λ k hi. done.2.0 z k (omega arith) hi, λ all. done.2.1 (λ k lo hi. all k hi)),
      )

  ece391_strncmp_from-agrees :
      (n i : ℕ) → (ece391_strncmp_from n s1 s2 i ≡ 0) ↔ (strncmp_from n s1 s2 i ≡ 0)
  unfolding ece391_strncmp_from strncmp_from
  ece391_strncmp_from-agrees zero i = (λ h. h, λ h. h)
  ece391_strncmp_from-agrees (suc n) i =
      ground (arith, ece391_strncmp_from-agrees n (i + 1), b1 i, b2 i)

  -- On strings of bytes, ece391_strncmp returns 0 exactly when the two agree on their first `n`
  -- places, or up to the end of the first.
  pub ece391_strncmp-zero_iff : (n : ℕ) → (ece391_strncmp s1 s2 n ≡ 0) ↔ SameText n s1 s2
  unfolding ece391_strncmp strncmp
  ece391_strncmp-zero_iff n = (
    λ h. (strncmp-zero_iff s1 s2 b1 b2 n).0 ((ece391_strncmp_from-agrees n 0).0 h),
    λ h. (ece391_strncmp_from-agrees n 0).1 ((strncmp-zero_iff s1 s2 b1 b2 n).1 h),
  )
