-- ===== src/Memory/Text/Laws.antt =====
-- What the string functions of lib.c compute.
use mp.Base.{
  ℕ, zero, suc, ◌+◌, ◌≤◌, ◌<◌, ◌≡◌, ◌≢◌, ◌↔◌, ◌⊎◌, inl, inr, refl, ap, sym, ◌∙◌, some, arith, sub32,
  sign_extend, dec_lt, ℕ_discrete,
}
use mp.Memory.Text.{strlen, strlen_from, strncmp, strncmp_from, EndsAt, SameText, IsBytes}

strlen_from-EndsAt :
    (fuel : ℕ) (s : ℕ → ℕ) (n i : ℕ)
    → EndsAt s n
    → i ≤ n
    → n < i + fuel
    → strlen_from fuel s i ≡ some n
unfolding strlen_from
strlen_from-EndsAt zero s n i e h f = absurd (omega arith)
strlen_from-EndsAt (suc fuel) s n i e h f = elim (dec_lt i n) [
  | yes p ↦ ground (arith, e.before i p, strlen_from-EndsAt fuel s n (i + 1) e)
  | no p ↦ ground (arith, e.nul, ap s (let q : i ≡ n = omega arith in q))
]

-- On a string with its NUL at index `n`, and fuel above `n`, strlen returns `n`.
pub strlen-EndsAt : (fuel : ℕ) (s : ℕ → ℕ) (n : ℕ) → EndsAt s n → n < fuel → strlen fuel s ≡ some n
unfolding strlen
strlen-EndsAt fuel s n e h = strlen_from-EndsAt fuel s n 0 e (omega arith) (omega arith)

char_difference :
    (a b : ℕ) → a < 256 → b < 256 → (sub32 (sign_extend a) (sign_extend b) ≡ 0) ↔ (a ≡ b)
char_difference a b ha hb = ground arith

-- The test of strncmp passes at an index where the strings differ or the first one ends.
strncmp_from-stop :
    (left : ℕ) (s1 s2 : ℕ → ℕ) (i : ℕ)
    → (s1 i ≢ s2 i) ⊎ (s1 i ≡ 0)
    → strncmp_from (suc left) s1 s2 i ≡ sub32 (sign_extend (s1 i)) (sign_extend (s2 i))
unfolding strncmp_from
strncmp_from-stop left s1 s2 i h = ground arith

strncmp_from-next :
    (left : ℕ) (s1 s2 : ℕ → ℕ) (i : ℕ)
    → s1 i ≡ s2 i
    → s1 i ≢ 0
    → strncmp_from (suc left) s1 s2 i ≡ strncmp_from left s1 s2 (i + 1)
unfolding strncmp_from
strncmp_from-next left s1 s2 i h k = ground arith

module _ (s1 s2 : ℕ → ℕ) (b1 : IsBytes s1) (b2 : IsBytes s2) where
  strncmp_from_sound :
      (left i k : ℕ)
      → strncmp_from left s1 s2 i ≡ 0
      → i ≤ k
      → k < i + left
      → ((j : ℕ) → i ≤ j → j < k → s1 j ≢ 0)
      → s1 k ≡ s2 k
  strncmp_from_sound zero i k z lo hi live = absurd (omega arith)
  strncmp_from_sound (suc left) i k z lo hi live = elim (ℕ_discrete (s1 i) (s2 i)) [
    | no differ ↦
        let stop = strncmp_from-stop left s1 s2 i (inl differ) in
        absurd (differ ((char_difference (s1 i) (s2 i) (b1 i) (b2 i)).0 (sym stop ∙ z)))
    | yes same ↦ elim (dec_lt i k) [
      | no p ↦ let q : i ≡ k = omega arith in rw (← q) same
      | yes p ↦
          let go = strncmp_from-next left s1 s2 i same (live i (omega arith) p) in
          strncmp_from_sound left (i + 1) k (sym go ∙ z) (omega arith) (omega arith)
            (λ j q r. live j (omega arith) r)
    ]
  ]

  strncmp_from_complete :
      (left i : ℕ)
      → ((k : ℕ) → i ≤ k → k < i + left → ((j : ℕ) → i ≤ j → j < k → s1 j ≢ 0) → s1 k ≡ s2 k)
      → strncmp_from left s1 s2 i ≡ 0
  strncmp_from_complete zero i same = unfold strncmp_from in refl
  strncmp_from_complete (suc left) i same =
      let here : s1 i ≡ s2 i = same i (omega arith) (omega arith) (λ j p q. absurd (omega arith)) in
      elim (ℕ_discrete (s1 i) 0) [
        | yes over ↦
            strncmp_from-stop left s1 s2 i (inr over)
            ∙ (char_difference (s1 i) (s2 i) (b1 i) (b2 i)).1 here
        | no live ↦
            strncmp_from-next left s1 s2 i here live
            ∙ strncmp_from_complete left (i + 1) (later live)
      ]
    where
      later :
          s1 i ≢ 0
          → (k : ℕ) → i + 1 ≤ k
          → k < i + 1 + left
          → ((j : ℕ) → i + 1 ≤ j → j < k → s1 j ≢ 0)
          → s1 k ≡ s2 k
      later live k lo hi rest = same k (omega arith) (omega arith) (λ j p q. elim (dec_lt i j) [
        | yes r ↦ rest j (omega arith) q
        | no r ↦ let e : i ≡ j = omega arith in rw (← e) live
      ])

  -- strncmp returns 0 exactly when the two strings agree on their first `n` bytes, or up to the
  -- end of the first.
  pub strncmp-zero_iff : (n : ℕ) → (strncmp s1 s2 n ≡ 0) ↔ SameText n s1 s2
  unfolding strncmp
  strncmp-zero_iff n = (
    λ z k h live. strncmp_from_sound n 0 k z (omega arith) (omega arith) (λ j p q. live j q),
    λ same.
        strncmp_from_complete n 0
          (λ k lo hi live. same k (omega arith) (λ j q. live j (omega arith) q)),
  )
