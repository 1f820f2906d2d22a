-- ===== src/Stage1/Load/Tests.antt =====
-- A run of load_stage2 with a firmware that keeps one file, and the theorems about it.
mod Disk
use biefircate.Prelude.{
  ℕ, ◌+◌, ◌-◌, ◌*◌, ◌/◌, ◌%◌, ◌≤◌, ◌<◌, ◌≡◌, ◌⊎◌, inl, inr, refl, ap, sym, ◌∙◌, subst, Bool, true,
  false, not, ◌&&◌, ◌||◌, List, [], ◌∷◌, arith, ltb, leb, if◌then◌else◌, length, get_or, Bool-cases,
}
use biefircate.Prelude.Tables.{holds_below, holds_below-at}
use biefircate.Stage1.Load.{
  Answer, File, Firmware, Name, Machine, Ending, load_stage2, open_stage2, load_prog, load_elf,
  load_segments, load_segment, fill_segment, read_stage2, seek_stage2, with_slack, put_bytes, clear,
  is_loadable,
}
use biefircate.Stage1.Load.Elf.{is_elf, is_current, has_sizes, ehdr_of, phdr_of, phdrs_of}
use biefircate.Stage1.Load.Files.{slice, length-slice, IsLawful}
use biefircate.Stage1.Load.Image.{IsImage, header_in, headers_at, load_stage2_lem}
use biefircate.Stage1.Load.Segments.{Returns, AreRoomy}
use biefircate.Stage1.Load.Served.{Served, IsServing, IsInOrder, load_stage2-Served}
use biefircate.Stage1.Load.Closed.{IsClosing, AreClosed, Tidies, load_stage2-Tidies}
use biefircate.Stage1.Load.Tests.Disk.{
  header, size, file, eq_file, opened, pages_at, readable, allocated_pages, open_name, disk,
  place_of, taken_in, boot, disk-IsLawful, open_name-place,
}

-- What the memory and the disk are like in the end.
unfoldable sample : Ending disk ℕ → List ℕ
sample (Ending.gave_up why m) = []
sample (Ending.returned entry m) =
    entry
    ∷ m.byte 0x100053
    ∷ m.byte 0x100054
    ∷ m.byte 0x100057
    ∷ m.byte 0x100058
    ∷ m.byte 0x10005b
    ∷ m.byte 0x10005c
    ∷ (if m.fw.is_open File.prog then 1 else 0)
    ∷ (if m.fw.taken 256 then 1 else 0)
    ∷ []

runs_load_stage2 :
    sample (load_stage2 disk boot) ≡ 0x100054 ∷ 0 ∷ 11 ∷ 14 ∷ 0 ∷ 0 ∷ 0xcc ∷ 0 ∷ 1 ∷ []
unfolding sample load_stage2 open_stage2 open_name load_prog load_elf load_segments load_segment
    fill_segment read_stage2 seek_stage2 with_slack put_bytes clear is_loadable is_elf is_current
    has_sizes ehdr_of phdr_of phdrs_of slice file readable allocated_pages holds_below
runs_load_stage2 = refl

file-AreRoomy : AreRoomy (headers_at file (header_in file))
unfolding ehdr_of phdr_of phdrs_of slice file
file-AreRoomy = (λ load. omega arith, tt)

load_stage2_lem_example :
    Returns (λ entry m. IsImage file size entry m.byte) (load_stage2 disk boot)
load_stage2_lem_example =
    load_stage2_lem disk file size place_of taken_in disk-IsLawful (omega arith) boot file-AreRoomy

disk-IsServing : IsServing disk file size place_of
unfolding open_name readable
disk-IsServing = record {
  handle_protocol = λ d. (d, refl);
  open_volume = λ d. (opened File.vol d, refl);
  open_prog = λ d. (record (opened File.prog d) { place = 0 }, refl);
  at_start = open_name-place;
  file_info = λ d. (d, refl, refl);
  read = λ n d within.
      let all_of : leb (d.place + n) size ≡ true = ground (arith, within) in
      (record d { place = d.place + n }, rw all_of refl);
  set_position = λ pos d. (record d { place = pos }, refl, refl);
}

file-IsInOrder : IsInOrder file size
unfolding ehdr_of phdr_of phdrs_of slice file is_loadable is_elf is_current has_sizes
file-IsInOrder = record {
  has_header = omega arith;
  loadable = refl;
  has_headers = omega arith;
  good = (
    λ load. record {
      filesz_le = omega arith;
      roomy = omega arith;
      word = omega arith;
      behind = omega arith;
      within = omega arith;
    },
    tt,
  );
}

load_stage2-Served_example : Served (λ entry m. Unit) (load_stage2 disk boot)
load_stage2-Served_example =
    load_stage2-Served disk file size place_of disk-IsServing boot file-IsInOrder

disk-IsClosing : IsClosing disk (λ f d. d.is_open f)
disk-IsClosing = record {
  closed = λ f d. elim f as (λ f. (if eq_file f f then false else d.is_open f) ≡ false) [
    | File.vol ↦ refl
    | File.prog ↦ refl
  ];
  others = λ f g d h. elim (Bool-cases (eq_file f g)) [ inl e ↦ rw e refl | inr e ↦ rw e h ];
}

load_stage2-Tidies_example :
    Tidies disk
      (λ f d. d.is_open f)
      disk-IsClosing
      (λ entry m. AreClosed disk (λ f d. d.is_open f) disk-IsClosing m)
      (load_stage2 disk boot)
load_stage2-Tidies_example = load_stage2-Tidies disk (λ f d. d.is_open f) disk-IsClosing boot
