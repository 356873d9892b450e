-- ===== src/Core/Unix/Handles.antt =====
-- Who closes the descriptor of a handle.
use database_45_steps.Prelude.{ℕ, Bool, ◌≡◌, refl, false, Option, none, some}
use database_45_steps.Core.DbError.{success}
use database_45_steps.Core.Platform.{FileHandle, closed_handle, is_open, swap, move_construct}
use database_45_steps.Core.Unix.{Posix, move_assign, destroy, platform_close}

module _ (os : Posix) where
  owned :
      (fd : Option ℕ) (at_eof : Bool) (other : FileHandle) (w : os.World)
      → let this : FileHandle = record { fd = fd; at_eof = at_eof } in
        let (e, fh, w') = platform_close os this w in
        (w' ≡ destroy os this w)
        × (is_open fh ≡ false)
        × (platform_close os fh w' ≡ (success, fh, w'))
        × (destroy os fh w' ≡ w')
        × (move_assign os this other w ≡ (other, closed_handle, destroy os this w))
  unfolding platform_close destroy is_open move_assign move_construct swap
  owned none at_eof other w = (refl, refl, refl, refl, refl)
  owned (some fd) at_eof other w = (refl, refl, refl, refl, refl)

  -- Closing a handle does to the world what destroying it does; the handle is then not open,
  -- closing it again succeeds and changes nothing, and destroying it changes nothing. Assigning
  -- another handle to one by move gives it the other's descriptor, leaves the other closed, and
  -- does to the world what destroying the first one does.
  pub handle_ownership :
      (this other : FileHandle) (w : os.World)
      → let (e, fh, w') = platform_close os this w in
        (w' ≡ destroy os this w)
        × (is_open fh ≡ false)
        × (platform_close os fh w' ≡ (success, fh, w'))
        × (destroy os fh w' ≡ w')
        × (move_assign os this other w ≡ (other, closed_handle, destroy os this w))
  handle_ownership this other w = owned this.fd this.at_eof other w
