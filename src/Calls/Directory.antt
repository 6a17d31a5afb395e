-- ===== src/Calls/Directory.antt =====
-- syscalls/ece391ls.c over the kernel: read of a directory, and the names on the display.
use Prim.Native.String.{String}
use mp.Base.{ℕ, ◌+◌, ◌^◌, ◌≤◌, ◌<◌, ◌≡◌, ◌≢◌, sym, ap, ◌∙◌, List, minus_one, Option}
use mp.Memory.{Mem, memcpy}
use mp.Memory.Text.{at, EndsAt}
use mp.Kernel.{Kernel, FileSystem, filesystem_fops, file_of, dentry_of}
use mp.FileSystem.{entry}
use mp.FileSystem.Data.Rounds.{Avoids}
use mp.SystemCalls.Opening.{IsTable}
use mp.Files.{with_fpos}
use mp.Screen.{video}
use mp.Console.Display.{Display}
use mp.Machine.{Machine}
use mp.Calls.System.{kernel_os}
use mp.Calls.Printing.{PrintsAt}
use mp.Programs.{Os}

-- The directory of the image `fs`: `n` entries between `lo` and `hi`, none of type 0, each with a
-- name of 1 to 31 characters.
pub record HasNames (fs : FileSystem) (mem : Mem) (n lo hi : ℕ) (len : ℕ → ℕ) (name : ℕ → Mem)
    : Type 0 where
  pub live : (k : ℕ) → k < n → mem (entry fs k + 32) ≢ 0
  pub ends : (k : ℕ) → k < n → mem (entry fs k + len k) ≡ 0
  pub letters : (k j : ℕ) → k < n → j < len k → mem (entry fs k + j) ≡ name k j
  pub above : (k : ℕ) → k < n → lo ≤ entry fs k
  pub below : (k : ℕ) → k < n → entry fs k + 64 ≤ hi

-- Descriptor `fd` is open on the directory, at entry `pos`.
pub record ListsAt (fs : FileSystem) (fd n lo hi : ℕ) (len : ℕ → ℕ) (name : ℕ → Mem) (m : Machine)
    (pos : ℕ) : Type 0 where
  pub filesystem : m.system.kernel.filesystem ≡ fs
  pub table : IsTable m.system.kernel.pcblock
  pub opened : (file_of m.system.kernel.pcblock fd).flags ≢ 0
  pub driver : (file_of m.system.kernel.pcblock fd).fops_ptr ≡ filesystem_fops
  pub directory : (dentry_of m.system.kernel.pcblock fd).file_type ≡ 1
  pub position : (file_of m.system.kernel.pcblock fd).fpos ≡ pos
  pub names : HasNames fs m.system.kernel.mem n lo hi len name

module _ (fs : FileSystem) (fd n lo hi : ℕ) (len : ℕ → ℕ) (name : ℕ → Mem) (range : fd < 8)
    (file : fd ≢ 1) (all : fs.num_dir_entries ≡ n) (few : n < 2 ^ 31)
    (short : (k : ℕ) → k < n → len k ≤ 31) (nonempty : (k : ℕ) → k < n → 0 < len k)
    (letter : (k j : ℕ) → k < n → j < len k → name k j ≢ 0) (buf : ℕ) (pointer : buf ≢ 0)
    (apart : Avoids buf 33 lo hi) (image_apart : Avoids video 4000 lo hi)
    (buf_apart : Avoids buf 33 video (video + 4000)) where
  abbrev At : Machine → ℕ → Type 0
  At = ListsAt fs fd n lo hi len name

  module _ (fuel : ℕ) (enough : 33 ≤ fuel) (rounds : ℕ) (m : Machine) (pos : ℕ)
      (here : At m pos) where
    abbrev kernel : Kernel
    kernel = record m.system.kernel { fd_val = fd }

    same_entry : entry m.system.kernel.filesystem pos ≡ entry fs pos
    same_entry = ap (λ f. entry f pos) here.filesystem

    module _ (more : pos < n) where
      abbrev stored : Mem
      stored = memcpy m.system.kernel.mem buf (entry m.system.kernel.filesystem pos) (len pos)

      abbrev after : Kernel
      after = record (with_fpos kernel fd (pos + 1)) { mem = stored }

      ends : EndsAt (at m.system.kernel.mem (entry m.system.kernel.filesystem pos)) (len pos)
      ends = rw same_entry (record {
        nul = here.names.ends pos more;
        before = λ j less e. letter pos j more less (sym (here.names.letters pos j more less) ∙ e);
      })

  module _ (stale : ℕ) (well : stale ≢ minus_one) (d : Display) (fuel : ℕ) (enough : 33 ≤ fuel)
      (rounds prev_b prev_a : ℕ) (runs : Machine → ℕ → Option (ℕ × Machine)) where
    abbrev os : Os Machine
    os = kernel_os stale fuel rounds prev_b prev_a runs

    abbrev Has : Machine → ℕ → List ℕ → Type 0
    Has = PrintsAt At d
