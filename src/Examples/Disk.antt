-- ===== src/Examples/Disk.antt =====
-- An operating system with one regular file, on which every call succeeds.
use database_45_steps.Prelude.{
  ℕ, zero, suc, ◌+◌, ◌≡◌, ◌≢◌, refl, sym, ap, ◌∙◌, arith, inr, true, false, Option, none, some, [],
  ◌∷◌, ◌++◌, length, if◌then◌else◌, ◌==◌, take, drop, drop-drop,
}
use database_45_steps.Core.Types.{Bytes}
use database_45_steps.Core.DbError.{ok}
use database_45_steps.Core.Platform.{Platform, Whence}
use database_45_steps.Core.Platform.Laws.{File, View, FileLaws, PathLaws, unread}
use database_45_steps.Core.Unix.{Posix, unix}
use database_45_steps.Core.Unix.Laws.{PosixFile, PosixPath}
use database_45_steps.Core.Unix.Outcomes
use database_45_steps.Core.Unix.Opening.{unix-FileLaws, unix-PathLaws}

abbrev pub seek : File → ℕ → Whence → ℕ
seek f offset Whence.seek_set = offset
seek f offset Whence.seek_cur = f.offset + offset
seek f offset Whence.seek_end = length f.content + offset

-- Descriptor 3 is that of the file.
abbrev pub synced : Option ℕ → File → File
synced none f = f
synced (some fd) f = if fd == 3 then record f { durable = f.content } else f

abbrev pub posix : Posix
posix = record {
  World = File;
  errno = λ f. 0;
  sys_open = λ path f. (some 3, record f { offset = 0 });
  sys_open_directory = λ path f. (none, f);
  sys_read = λ fd size f.
      (some (take size (unread f)), record f { offset = f.offset + length (take size (unread f)) });
  sys_write = λ fd buf f. (
    some (length buf),
    record f { content = f.content ++ buf; offset = length (f.content ++ buf) },
  );
  sys_lseek = λ fd offset whence f.
      (some (seek f offset whence), record f { offset = seek f offset whence });
  sys_fsync = λ fd f. (true, synced fd f);
  sys_close = λ fd f. (true, f);
  exists = λ path f. true;
  is_directory = λ path f. false;
  file_size = λ path f. ok (length f.content);
}

pub drop-length-take : (n : ℕ) (bs : Bytes) → drop (length (take n bs)) bs ≡ drop n bs
drop-length-take zero bs = refl
drop-length-take (suc n) [] = refl
drop-length-take (suc n) (b ∷ bs) = drop-length-take n bs

pub take-length : (bs : Bytes) → take (length bs) bs ≡ bs
take-length [] = refl
take-length (b ∷ bs) = ap (◌∷◌ b) (take-length bs)

unfoldable pub posix_file : PosixFile posix 3
posix_file = record {
  file = λ f. f;
  IsFaulty = ⊥;
  read_law = λ size f. inr (record {
    bytes = refl;
    kept = refl;
    left =
        drop-drop f.offset (length (take size (unread f))) f.content
        ∙ drop-length-take size (unread f);
  });
  write_law = λ buf f end. inr (record {
    count = length buf;
    counted = refl;
    fits = omega arith;
    short = λ h. absurd (omega arith);
    appended = ap (λ bs. f.content ++ bs) (sym (take-length buf));
  });
  seek_set_law =
      λ offset f. inr (record { position = offset; moved = refl; kept = refl; at = refl });
  seek_end_law = λ offset f.
      inr (record { position = length f.content + offset; moved = refl; kept = refl; at = refl });
  sync_law = λ f. inr (refl, record { kept = refl; durable = refl });
  close_law = λ f. (inr refl, refl);
}

other_kept : (dirfd : ℕ) (f : File) → dirfd ≢ 3 → synced (some dirfd) f ≡ f
other_kept dirfd f ne = ground (arith, ne)

pub posix_path : (path : Bytes) → PosixPath posix_file path
unfolding posix_file
posix_path path = record {
  open_law = λ f. inr (refl, refl, refl);
  size_law = λ f. inr refl;
  open_directory_keeps = λ dir f. (λ e. cc e, refl);
  sync_directory_keeps = λ dirfd f ne. other_kept dirfd f ne;
}

abbrev pub disk : Platform
disk = unix posix

abbrev pub view : View disk
view = Outcomes.view posix_file

pub laws : FileLaws view
laws = unix-FileLaws posix_file

pub paths : (path : Bytes) → PathLaws view path
paths path = unix-PathLaws posix_file (posix_path path)

-- Nothing fails on this system.
pub never_faulty : ¬ view.IsFaulty
unfolding posix_file
never_faulty fault = fault
