-- ===== src/Examples/Drive.antt =====
-- A Windows system with one regular file, on which every call succeeds.
use database_45_steps.Prelude.{
  ℕ, ◌+◌, refl, ◌∙◌, arith, inr, true, false, some, ◌++◌, length, take, drop-drop,
}
use database_45_steps.Core.DbError.{ok}
use database_45_steps.Core.Platform.Laws.{File, FileLaws, unread}
use database_45_steps.Core.Windows.{Win32, MoveMethod}
use database_45_steps.Core.Windows.Laws.{WindowsFile, Seeking}
use database_45_steps.Core.Windows.Outcomes.{view}
use database_45_steps.Core.Windows.Opening.{windows-FileLaws}
use database_45_steps.Examples.Disk.{drop-length-take}

abbrev target : File → ℕ → MoveMethod → ℕ
target f offset MoveMethod.file_begin = offset
target f offset MoveMethod.file_current = f.offset + offset
target f offset MoveMethod.file_end = length f.content + offset

abbrev drive : Win32
drive = record {
  World = File;
  last_error = λ f. 0;
  multi_byte_to_wide_char = λ path. some path;
  create_file = λ path f. (some 4, record f { offset = 0 });
  write_file = λ h buf size f. (
    some size,
    record f { content = f.content ++ take size buf; offset = length (f.content ++ take size buf) },
  );
  read_file = λ h size f.
      (some (take size (unread f)), record f { offset = f.offset + length (take size (unread f)) });
  set_file_pointer =
      λ h offset method f. (target f offset method, record f { offset = target f offset method });
  flush_file_buffers = λ h f. (true, record f { durable = f.content });
  close_handle = λ h f. (true, f);
  exists = λ path f. true;
  is_directory = λ path f. false;
  file_size = λ path f. ok (length f.content);
}

windows_file : WindowsFile drive 4
windows_file = record {
  file = λ f. f;
  IsFaulty = ⊥;
  read_law = λ size f. inr (record {
    bytes = refl;
    kept = refl;
    left =
        drop-drop f.offset (length (take size (unread f))) f.content
        ∙ drop-length-take size (unread f);
  });
  write_law = λ buf size f le end. inr (record {
    count = size;
    counted = refl;
    fits = omega arith;
    short = λ h. absurd (omega arith);
    appended = refl;
  });
  seek_begin_law = λ offset f. Seeking.moved (inr refl) refl refl;
  seek_end_law = λ offset f. Seeking.moved (inr refl) refl refl;
  flush_law = λ f. inr (refl, record { kept = refl; durable = refl });
  close_law = λ f. (inr refl, refl);
}

windows-FileLaws_example : FileLaws (view windows_file)
windows-FileLaws_example = windows-FileLaws windows_file
