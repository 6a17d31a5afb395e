-- ===== src/Programs/Tests.antt =====
-- A small system with one file, and the programs on it.
use Prim.Native.String.{String}
use mp.Base.{
  ℕ, ◌+◌, ◌-◌, ◌%◌, ◌≤◌, ◌<◌, ◌≡◌, ◌↔◌, refl, arith, ◌&&◌, Option, some, none, List, [], ◌++◌, min,
  leb, ltb, ◌==◌, if◌then◌else◌, ap, none, ◌∷◌,
}
use mp.Memory.{Mem, store}
use mp.Memory.Text.{at, EndsAt, IsBytes, SameText}
use mp.FileSystem.{bytes_at}
use mp.Programs.{Os, ece391_strlen, ece391_strcmp, ece391_strncmp}
use mp.Programs.Compare.{ece391_strcmp-zero_iff, ece391_strncmp-zero_iff}
use mp.Programs.Shell.Lines.{exit_letter}
use mp.Programs.Pieces.{Prints}
use mp.Programs.Cat.{cat}
use mp.Programs.Cat.Copying.{Serves, cat-Serves}

record Toy : Type 0 where
  mem : Mem
  pos : ℕ
  out : List ℕ

-- The file has 1500 bytes.
abbrev content : Mem
content j = j % 7

abbrev filled : Mem → ℕ → ℕ → Mem → ℕ → Mem
filled m buf n source start b =
    if leb buf b && ltb b (buf + n) then source (start + (b - buf)) else m b

-- `read_one` is its read.
abbrev toy_os : (Toy → ℕ → Option (ℕ × Toy)) → Os Toy
toy_os read_one = record {
  mem = λ s. s.mem;
  set_mem = λ s m. record s { mem = m };
  getargs = λ s buf n. some (0, s);
  open_file = λ s name. some (2, s);
  close_file = λ s fd. some (0, s);
  read = λ s fd buf n. read_one s buf;
  write = λ s fd buf n. some (n, record s { out = s.out ++ bytes_at n s.mem buf });
  execute = λ s buf. none;
}

abbrev read_file : Toy → ℕ → Option (ℕ × Toy)
read_file s buf =
    let n = min 1024 (1500 - s.pos) in
    some (n, record s { mem = filled s.mem buf n content s.pos; pos = s.pos + n })

-- Entry `k` is a name of `k + 1` letters.
abbrev read_entry : Toy → ℕ → Option (ℕ × Toy)
read_entry s buf =
    let n = if ltb s.pos 2 then s.pos + 1 else 0 in
    some (
      n,
      record s {
        mem = filled s.mem buf n (λ j. 97) 0;
        pos = if ltb s.pos 2 then s.pos + 1 else s.pos;
      },
    )

abbrev At : Toy → ℕ → List ℕ → Type 0
At s pos out = (s.pos ≡ pos) × (s.out ≡ out)

toy_Serves : Serves (toy_os read_file) 5000 2 1500 content At
toy_Serves = record {
  reads = λ s pos out here le. (
    record s {
      mem = filled s.mem 5000 (min 1024 (1500 - s.pos)) content s.pos;
      pos = s.pos + min 1024 (1500 - s.pos);
    },
    ground (arith, here.0),
    (ground (arith, here.0), here.1),
    λ j lt. ground (arith, here.0),
  );
}

toy_Prints :
    (most : ℕ) (read_one : Toy → ℕ → Option (ℕ × Toy))
    → most < 2000
    → Prints (toy_os read_one) 5000 most At
toy_Prints most read_one small = record {
  writes = λ s pos n out here lo hi. (
    n,
    record s { out = s.out ++ bytes_at n s.mem 5000 },
    refl,
    omega arith,
    (here.0, ap (λ l. l ++ bytes_at n s.mem 5000) here.1),
  );
}

abbrev start : Toy
start = record { mem = λ b. 0; pos = 0; out = [] }

abbrev anywhere : String → ℕ
anywhere text = 9000

cat-Serves_example :
    (s' : Toy) × (cat (toy_os read_file) 100 anywhere 5000 3 start ≡ some (0, s'))
    × At s' 1500 (bytes_at 1500 content 0)
cat-Serves_example =
    cat-Serves (toy_os read_file) 100 anywhere 5000 2 1500 content At toy_Serves
      (toy_Prints 1024 read_file (omega arith)) 3 start start start [] refl refl (omega arith)
      (refl, refl) (omega arith)

-- "exit", and "exis".
abbrev text_exit : ℕ → ℕ
text_exit i =
    if i == 0
    then 101
    else if i == 1
    then 120
    else if i == 2
    then 105
    else if i == 3
    then 116
    else 0

abbrev text_exis : ℕ → ℕ
text_exis i = if i == 3 then 115 else text_exit i

text_exit-IsBytes : IsBytes text_exit
text_exit-IsBytes i = ground arith

text_exis-IsBytes : IsBytes text_exis
text_exis-IsBytes i = ground arith

text_exit-EndsAt : EndsAt text_exit 4
text_exit-EndsAt = record { nul = refl; before = λ i h. ground arith }

ece391_strcmp-zero_iff_example :
    (v : ℕ) × (ece391_strcmp 10 text_exit text_exis ≡ some v)
    × ((v ≡ 0) ↔ ((k : ℕ) → k ≤ 4 → text_exit k ≡ text_exis k))
ece391_strcmp-zero_iff_example =
    ece391_strcmp-zero_iff text_exit text_exis text_exit-IsBytes text_exis-IsBytes 10 4
      text_exit-EndsAt (omega arith)

ece391_strncmp-zero_iff_example :
    (ece391_strncmp text_exit text_exis 3 ≡ 0) ↔ SameText 3 text_exit text_exis
ece391_strncmp-zero_iff_example =
    ece391_strncmp-zero_iff text_exit text_exis text_exit-IsBytes text_exis-IsBytes 3

-- A system in which an empty line, "ls" and "exit" are typed, in that order.
record Typing : Type 0 where
  mem : Mem
  pos : ℕ
  ran : List (List ℕ)

abbrev typed_len : ℕ → ℕ
typed_len k = if k == 0 then 0 else if k == 1 then 2 else 4

abbrev typed : ℕ → Mem
typed k j = if k == 1 then (if j == 0 then 108 else 115) else text_exit j

-- The buffer after line `k`.
abbrev typed_line : Mem → ℕ → Mem
typed_line m k = store (filled m 5000 (typed_len k) (typed k) 0) (5000 + typed_len k) 10

abbrev typing_os : Os Typing
typing_os = record {
  mem = λ s. s.mem;
  set_mem = λ s m. record s { mem = m };
  getargs = λ s buf n. none;
  open_file = λ s name. none;
  close_file = λ s fd. none;
  read = λ s fd buf n.
      some (typed_len s.pos + 1, record s { mem = typed_line s.mem s.pos; pos = s.pos + 1 });
  write = λ s fd buf n. some (n, s);
  execute = λ s buf. elim (ece391_strlen 1100 (at s.mem buf)) [
    | none ↦ none
    | some l ↦ some (0, record s { ran = s.ran ++ (bytes_at l s.mem buf ∷ []) })
  ];
}

-- The literals stand at 9000.
record Typed (s : Typing) (n : ℕ) (ran : List (List ℕ)) : Type 0 where
  pos : s.pos ≡ n
  done : s.ran ≡ ran
  bytes : (a : ℕ) → s.mem a < 256
  exit : (j : ℕ) → j ≤ 4 → s.mem (9000 + j) ≡ exit_letter j

abbrev typing : Typing
typing = record { mem = λ a. if leb 9000 a then text_exit (a - 9000) else 0; pos = 0; ran = [] }
