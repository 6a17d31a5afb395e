-- ===== src/Programs/Counter.antt =====
-- syscalls/ece391counter.c and ece391hello.c.
use Prim.Native.String.{String}
use mp.Base.{
  ℕ, zero, suc, ◌+◌, Bool, ◌&&◌, ◌||◌, Option, some, ◌>>=◌, ◌==◌, if◌then◌else◌, minus_one, ltb,
}
use mp.Memory.{store}
use mp.Memory.Text.{at}
use mp.Programs.{Os, ece391_strlen, ece391_itoa, ece391_fdputs, complain}

module _ {S : Type 0} (os : Os S) (fuel : ℕ) (place : String → ℕ) (buf : ℕ) where
  -- The for loop of the counter, with the rounds left for `max - i`.
  unfoldable pub count_from : ℕ → ℕ → S → Option S
  count_from zero i s = some s
  count_from (suc left) i s = do
    m ← ece391_itoa (os.mem s) (i + 1) buf 10
    s1 ← ece391_fdputs os fuel 1 buf (os.set_mem s m)
    s2 ← ece391_fdputs os fuel 1 (place "\n") s1
    count_from left (i + 1) s2

  -- The switch: how far it counts, for the first character of the line.
  unfoldable pub counter_max : ℕ → ℕ
  counter_max c = if c == 48 then 100 else if c == 49 then 10000 else if c == 50 then 100000 else 0

  -- Whether the line, of length `n`, is no choice.
  unfoldable pub is_wrong : ℕ → ℕ → Bool
  is_wrong n c = ltb 1 n || ((n == 1) && (ltb c 48 || ltb 50 c))

  -- main of the counter; the length is taken again for each part of the condition.
  unfoldable pub counter : S → Option (ℕ × S)
  counter s = do
    s1 ←
        ece391_fdputs os fuel 1 (place "Enter the Test Number: (0): 100, (1): 10000, (2): 100000\n")
          s
    (cnt, s2) ← os.read s1 0 buf 1023
    if cnt == minus_one
        then complain os fuel 1 (place "Can't read the number from keyboard.\n") 3 s2
        else (do
          let s3 = os.set_mem s2 (store (os.mem s2) (buf + cnt) 0)
          n ← ece391_strlen fuel (at (os.mem s3) buf)
          if is_wrong n (os.mem s3 buf)
              then complain os fuel 1 (place "Wrong Choice!\n") 0 s3
              else (do s4 ← count_from (counter_max (os.mem s3 buf)) 0 s3; some (0, s4)))

  -- main of ece391hello.c
  unfoldable pub hello : S → Option (ℕ × S)
  hello s = do
    s1 ← ece391_fdputs os fuel 1 (place "Hi, what's your name? ") s
    (cnt, s2) ← os.read s1 0 buf 1023
    if cnt == minus_one
        then complain os fuel 1 (place "Can't read name from keyboard.\n") 3 s2
        else (do
          let s3 = os.set_mem s2 (store (os.mem s2) (buf + cnt) 0)
          s4 ← ece391_fdputs os fuel 1 (place "Hello, ") s3
          s5 ← ece391_fdputs os fuel 1 buf s4
          some (0, s5))
