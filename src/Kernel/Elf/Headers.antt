-- ===== src/Kernel/Elf/Headers.antt =====
-- kernel/bin/elf.c: where in the file the loader looks for the program headers.
use levos.Prelude.{ℕ, ◌+◌, ◌<◌, ◌≡◌}
use levos.Kernel.Elf.{Bytes, Operations, half, word}

-- A file with the bytes `content`, as far as its filesystem can read it: `Open` says of a state that it is one of
-- this file, and `CanRead` of a position and a length that the read of so many bytes there succeeds. Such a
-- read gives the bytes from the position on, and moves the position.
pub record IsFile {F : Type 0} (ops : Operations F) (content : Bytes) (position : F → ℕ)
    (Open : F → Type 0) (CanRead : ℕ → ℕ → Type 0) : Type 0 where
  pub bytes :
      (count : ℕ) (b : Bytes) (f : F) (o : ℕ)
      → Open f
      → CanRead (position f) count
      → o < count
      → (ops.read count b f).0 o ≡ content (position f + o)
  pub moved :
      (count : ℕ) (b : Bytes) (f : F)
      → Open f
      → CanRead (position f) count
      → position (ops.read count b f).1 ≡ position f + count
  pub stays :
      (count : ℕ) (b : Bytes) (f : F)
      → Open f
      → CanRead (position f) count
      → Open (ops.read count b f).1
  pub placed :
      (p : ℕ) (f : F)
      → Open f
      → (position (ops.file_set_position p f) ≡ p) × Open (ops.file_set_position p f)

-- Two more fields of `elf_header_t`: where the section headers are, and how many.
abbrev pub e_shoff : Bytes → ℕ
e_shoff b = word b 32

abbrev pub e_shnum : Bytes → ℕ
e_shnum b = half b 48

abbrev pub e_version : Bytes → ℕ
e_version b = word b 20
