-- ===== src/Prelude/Strip.antt =====
-- `str.strip` leaves a stripped text as it is.
use Prim.Native.Char.{Char, code}
use Prim.Native.String.{String}
use mathlib.Core.Path.{◌≡◌, refl}
use mathlib.Core.Logic.{inl, inr}
use mathlib.Core.Bool.{false, ◌&&◌}
use text.Mathlib.Text.{◌==◌}
use bastet_agent_os.Prelude.Tests.{Bool-cases}
use bastet_agent_os.Prelude.Text.{is_space, lstrip, rstrip, strip}

rstrip_idem : (s : String) → rstrip (rstrip s) ≡ rstrip s
unfolding rstrip
rstrip_idem String.[] = refl
rstrip_idem (String.◌∷◌ c s) = elim (Bool-cases (rstrip s == "" && is_space (code c))) [
  | inl e ↦ rw e refl
  | inr e ↦ rw (e, rstrip_idem s, e) refl
]

pub rstrip-keep :
    (c : Char) (s : String)
    → is_space (code c) ≡ false
    → rstrip (String.◌∷◌ c s) ≡ String.◌∷◌ c (rstrip s)
unfolding rstrip
rstrip-keep c s e = elim (Bool-cases (rstrip s == "")) [
  | inl h ↦ rw (h, e) refl
  | inr h ↦ rw h refl
]

lstrip_nil : lstrip (rstrip String.[]) ≡ rstrip String.[]
unfolding lstrip rstrip
lstrip_nil = refl

lstrip-rstrip : (s : String) → lstrip (rstrip (lstrip s)) ≡ rstrip (lstrip s)
unfolding lstrip
lstrip-rstrip String.[] = lstrip_nil
lstrip-rstrip (String.◌∷◌ c s) = elim (Bool-cases (is_space (code c))) [
  | inl e ↦ rw e (lstrip-rstrip s)
  | inr e ↦ rw (e, rstrip-keep c s e, e) refl
]

pub strip_idem : (s : String) → strip (strip s) ≡ strip s
unfolding strip
strip_idem s = rw (lstrip-rstrip s) (rstrip_idem (lstrip s))
