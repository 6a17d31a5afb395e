-- ===== src/Files/Arguments.antt =====
-- What getargs stores.
use mp.Base.{
  ℕ, zero, suc, ◌+◌, ◌-◌, ◌≤◌, ◌<◌, ◌≡◌, ◌≢◌, ◌∙◌, false, ◌&&◌, leb, ltb, if◌then◌else◌, arith,
  is_neg, min,
}
use mp.Memory.{Mem, store}
use mp.Kernel.{Pcb}
use mp.Files.{arg_byte, clear_args, copy_arg, getargs}

clear_args_lem :
    (n : ℕ) (m : Mem) (buf b : ℕ)
    → clear_args n m buf b ≡ (if leb buf b && ltb b (buf + n) then 0 else m b)
unfolding clear_args
clear_args_lem zero m buf b = ground arith
clear_args_lem (suc n) m buf b = ground (arith, clear_args_lem n (store m buf 0) (buf + 1) b)

copy_arg_lem :
    (n : ℕ) (m : Mem) (arg : ℕ → ℕ) (buf b : ℕ)
    → copy_arg n m arg buf b ≡ (if leb buf b && ltb b (buf + n) then arg (b - buf) else m b)
unfolding copy_arg
copy_arg_lem zero m arg buf b = ground arith
copy_arg_lem (suc n) m arg buf b =
    copy_arg_lem n (store m buf (arg 0)) (λ i. arg (i + 1)) (buf + 1) b ∙ ground (arith, one_on b)
  where
    one_on : (b : ℕ) → buf < b → b - (buf + 1) + 1 ≡ b - buf
    one_on b h = omega arith

-- The bytes from `arg_name` on, as many as the argument has and at most `nbytes`, then zeros up to
-- 1024 bytes.
pub record Given (m : Mem) (p : Pcb) (behind : ℕ → ℕ) (buf nbytes : ℕ) (r : Mem) : Type 0 where
  pub argument : (i : ℕ) → i < p.data_arg_size → i < nbytes → r (buf + i) ≡ arg_byte p behind i
  pub zeros : (i : ℕ) → min p.data_arg_size nbytes ≤ i → i < 1024 → r (buf + i) ≡ 0
  pub before : (b : ℕ) → b < buf → r b ≡ m b
  pub above : (b : ℕ) → buf + 1024 ≤ b → r b ≡ m b

-- With a buffer, a length that is not negative and a size of the argument below 1024, getargs
-- returns 0 and stores so many of the bytes from `arg_name` on, at most the length, and zeros
-- behind them: 1024 bytes in all, whatever the length. Where the size is above 40, these bytes are
-- the 40 of `arg_name`, `data_arg_size`, and then those behind the control block. It changes no
-- other address.
pub getargs-Given :
    (m : Mem) (p : Pcb) (behind : ℕ → ℕ) (buf nbytes : ℕ)
    → buf ≢ 0
    → is_neg nbytes ≡ false
    → p.data_arg_size < 1024
    → (r : Mem) × (getargs m p behind buf nbytes ≡ (0, r)) × Given m p behind buf nbytes r
unfolding getargs
getargs-Given m p behind buf nbytes some_buf no_neg small =
    let size = if ltb p.data_arg_size nbytes then p.data_arg_size else nbytes in
    let arg : ℕ → ℕ = arg_byte p behind in
    let m1 = clear_args 1024 m buf in
    let stored : (b : ℕ)
        → copy_arg size m1 arg buf b
          ≡ (if leb buf b && ltb b (buf + size) then arg (b - buf) else m1 b) =
      copy_arg_lem size m1 arg buf in
    let cleared : (b : ℕ) → m1 b ≡ (if leb buf b && ltb b (buf + 1024) then 0 else m b) =
      clear_args_lem 1024 m buf in
    (
      copy_arg size m1 arg buf,
      ground (arith, no_neg),
      record {
        argument = λ i lt fits. stored (buf + i) ∙ ground arith;
        zeros = λ i lo hi. stored (buf + i) ∙ ground (arith, cleared (buf + i));
        before = λ b lt. stored b ∙ ground (arith, cleared b);
        above = λ b lo. stored b ∙ ground (arith, cleared b);
      },
    )
