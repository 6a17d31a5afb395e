-- ===== src/Calls/Copying.antt =====
-- syscalls/ece391cat.c over the kernel: the file stands on the display.
use Prim.Native.String.{String}
use mp.Base.{
  ℕ, ◌+◌, ◌-◌, ◌^◌, ◌≤◌, ◌<◌, ◌≢◌, refl, sym, ap, ◌∙◌, if◌then◌else◌, Option, List, min, minus_one,
  ltb,
}
use mp.Memory.{Mem}
use mp.Kernel.{FileSystem, Kernel}
use mp.FileSystem.{inode_ptr}
use mp.FileSystem.Data.Image.{max_length, file_byte}
use mp.FileSystem.Data.Rounds.{Avoids, Holds-outside}
use mp.Screen.{video}
use mp.Console.Display.{Display, Looks-beside}
use mp.Machine.{Machine, screen_of, put_kernel}
use mp.Calls.Reading.{Delivers}
use mp.Calls.{read}
use mp.Calls.System.{kernel_os, returned}
use mp.Calls.Serving.{ReadsAt, delivers, after-ReadsAt, delivered}
use mp.Programs.{Os}
use mp.Programs.Cat.Copying.{Serves}
use mp.Calls.Printing.{PrintsAt}

module _ (fs : FileSystem) (fd inode size lo hi : ℕ) (content : Mem) (range : fd < 8)
    (registered : inode + 1 < fs.num_inodes) (inodes : fs.num_inodes < 2 ^ 32)
    (fits : size ≤ max_length) (buf : ℕ) (pointer : buf ≢ 0) (apart : Avoids buf 1024 lo hi)
    (file : fd ≢ 1) (image_apart : Avoids video 4000 lo hi)
    (buf_apart : Avoids buf 1024 video (video + 4000)) (stale : ℕ) (well : stale ≢ minus_one)
    (d : Display) (fuel rounds prev_b prev_a : ℕ) (runs : Machine → ℕ → Option (ℕ × Machine)) where
  abbrev os : Os Machine
  os = kernel_os stale fuel rounds prev_b prev_a runs

  abbrev At : Machine → ℕ → List ℕ → Type 0
  At = PrintsAt (ReadsAt fs fd inode size lo hi content) d

  -- What a read delivers.
  abbrev served :
      (m : Machine) (pos : ℕ) (here : ReadsAt fs fd inode size lo hi content m pos)
      (le : pos ≤ size)
      → Delivers m fd
          (inode_ptr fs inode)
          pos
          buf
          1024
          (min 1024 (size - pos))
          (read fuel rounds m fd buf 1024)
  served =
      delivers fs fd inode size lo hi content range registered inodes fits buf pointer apart fuel
        rounds

  -- The reads leave the display alone.
  read-PrintsAt :
      (m : Machine) (pos : ℕ) (out : List ℕ) (here : At m pos out) (le : pos ≤ size)
      → At (put_kernel m (served m pos here.has le).result) (pos + min 1024 (size - pos)) out
  read-PrintsAt m pos out here le =
      let done = served m pos here.has le in
      record {
        has =
            after-ReadsAt fs fd inode size lo hi content range registered inodes fits buf pointer
              apart fuel rounds m pos here.has le;
        looks = Looks-beside _ (screen_of m) done.result.mem here.looks (λ b p q.
            Holds-outside m.system.kernel.mem done.result.mem buf 1024 video (video + 4000)
              (λ j.
                if ltb j (min 1024 (size - pos))
                then file_byte m.system.kernel.filesystem m.system.kernel.mem (inode_ptr fs inode)
                    (pos + j)
                else 0)
              done.bytes buf_apart b p q);
        opened = λ z. here.opened (ap (λ f. f.flags) (sym (done.others 1 (λ e. file (sym e)))) ∙ z);
        driver = ap (λ f. f.fops_ptr) (done.others 1 (λ e. file (sym e))) ∙ here.driver;
      }

  pub kernel_os-PrintsServes : Serves os buf fd size content At
  kernel_os-PrintsServes = record {
    reads = λ m pos out here le.
        let done = served m pos here.has le in
        (
          put_kernel m done.result,
          ap (returned stale) done.answer ∙ (unfold returned in refl),
          read-PrintsAt m pos out here le,
          delivered fs fd inode size lo hi content range registered inodes fits buf pointer apart
              fuel rounds m pos here.has le,
        );
  }
