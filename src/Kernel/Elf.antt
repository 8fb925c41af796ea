-- ===== src/Kernel/Elf.antt =====
-- kernel/bin/elf.c and include/levos/elf.h: the loader of executables, as far as it goes. A file is a state
-- that its `read`, and the setting of its position, change. A buffer is a function from the offset to the
-- byte; what a new one holds is `fresh`, and a read may leave some of it.
pub mod Headers
pub mod OnExt2
use levos.Prelude.{
  ℕ, zero, suc, ◌+◌, ◌*◌, ◌^◌, List, [], ◌∷◌, Bool, true, false, not, ◌&&◌, ◌==◌, leb,
  if◌then◌else◌,
}
use levos.Prelude.Int.{ℤ, neg}
use levos.Prelude.Errno.{ebadf, enoexec, enomem, enosys}

abbrev pub Bytes : Type 0
Bytes = ℕ → ℕ

-- `read count buffer f` is the buffer and the file after `f->fops->read(f, buffer, count)`, whose result
-- the loader does not look at.
pub record Operations (F : Type 0) : Type 0 where
  pub read : ℕ → Bytes → F → Bytes × F
  pub file_set_position : ℕ → F → F

-- Fields of 2 and 4 bytes.
abbrev pub half : Bytes → ℕ → ℕ
half b o = b o + b (o + 1) * 2 ^ 8

abbrev pub word : Bytes → ℕ → ℕ
word b o = b o + b (o + 1) * 2 ^ 8 + b (o + 2) * 2 ^ 16 + b (o + 3) * 2 ^ 24

-- The fields of `elf_header_t` that are read, with their offsets.
abbrev pub e_type : Bytes → ℕ
e_type b = half b 16

abbrev pub e_phoff : Bytes → ℕ
e_phoff b = word b 28

abbrev pub e_phnum : Bytes → ℕ
e_phnum b = half b 44

abbrev pub elf_header_size : ℕ
elf_header_size = 52

abbrev pub program_header_size : ℕ
program_header_size = 32

-- `elf_program_header_t`, the fields that are printed.
pub record Segment : Type 0 where
  pub p_offset : ℕ
  pub p_vaddr : ℕ
  pub p_paddr : ℕ
  pub p_filesz : ℕ
  pub p_memsz : ℕ

-- `elf_type_as_string`, under a name for each string.
pub data TypeName : Type 0 where
  relocatable : TypeName
  executable : TypeName
  shared : TypeName
  core : TypeName
  unknown : TypeName

unfoldable pub elf_type_as_string : ℕ → TypeName
elf_type_as_string t =
    if t == 1
    then relocatable
    else if t == 2
    then executable
    else if t == 3
    then shared
    else if t == 4
    then core
    else unknown

abbrev pub has_magic : Bytes → Bool
has_magic b = b 0 == 0x7F && b 1 == b'E' && b 2 == b'L' && b 3 == b'F'

-- The loop over the program headers from the one at `o` on: the segments that are printed.
unfoldable pub load_segments : ℕ → ℕ → Bytes → List Segment
load_segments zero o ph = []
load_segments (suc rounds) o ph =
    let rest = load_segments rounds (o + program_header_size) ph in
    if word ph o == 1
    then record {
      p_offset = word ph (o + 4);
      p_vaddr = word ph (o + 8);
      p_paddr = word ph (o + 12);
      p_filesz = word ph (o + 16);
      p_memsz = word ph (o + 20);
    }
      ∷ rest
    else rest

module _ {F : Type 0} (ops : Operations F) (fresh : Bytes) where
  unfoldable pub elf_probe : F → Bool × F
  elf_probe f = let (magic, f') = ops.read 4 fresh f in (has_magic magic, f')

  -- The program headers, once there is room for them.
  unfoldable pub read_segments : Bytes → F → ℤ × List Segment × F
  read_segments header f =
      let (ph, f') =
        ops.read (program_header_size * e_phnum header) fresh
          (ops.file_set_position (e_phoff header) f) in
      (neg enosys, load_segments (e_phnum header) 0 ph, f')

  -- `room` says whether `kmalloc` has room for so many bytes. The result comes with the segments that
  -- were printed.
  unfoldable pub load_header : (ℕ → Bool) → Bytes → F → ℤ × List Segment × F
  load_header room header f =
      if leb 2 (e_type header)
      then (neg enoexec, [], f)
      else if not (room (program_header_size * e_phnum header))
      then (neg enomem, [], f)
      else read_segments header f

  unfoldable pub elf_load : (ℕ → Bool) → F → ℤ × List Segment × F
  elf_load room f =
      let (is_elf, f1) = elf_probe (ops.file_set_position 0 f) in
      let (header, f2) = ops.read elf_header_size fresh f1 in
      if not is_elf then (neg ebadf, [], f1) else load_header room header f2
