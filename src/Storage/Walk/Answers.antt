-- ===== src/Storage/Walk/Answers.antt =====
-- Facts on an answer, if there is one.
use mathlib.Core.Path.{subst, ap}
use photogallery.Prelude.{◌≡◌, Bool, false, ◌&&◌, Option, none, some, List, [], arith}
use photogallery.Prelude.Text.{Text, ◌==◌}
use photogallery.Exec.{ok, err}
use photogallery.Storage.Walk.{
  Entry, Dir, Target, album_entry, photo_entry, incoming_entry, and_then,
}

abbrev or_else : {A : Type 0} → A → Option A → A
or_else d none = d
or_else d (some a) = a

abbrev pub OnSome : {A : Type 0} → (A → Type 0) → Option A → Type 0
OnSome P none = Unit
OnSome P (some a) = P a

pub OnSome-some :
    {A : Type 0} (P : A → Type 0) (o : Option A) (a : A) → OnSome P o → o ≡ some a → P a
OnSome-some P none a h e = absurd (ground (arith, e))
OnSome-some P (some b) a h e = subst P (ap (or_else b) e) h

pub and_then-OnSome :
    {A B : Type 0} (P : A → Type 0) (Q : B → Type 0) (o : Option A) (f : A → Option B)
    → ((a : A) → P a → OnSome Q (f a))
    → OnSome P o
    → OnSome Q (and_then o f)
unfolding and_then
and_then-OnSome P Q none f k h = tt
and_then-OnSome P Q (some a) f k h = k a h

abbrev pub entries_of : Dir → List Entry
entries_of (ok es) = es
entries_of (err e) = []

-- The path of a photo directory.
abbrev pub is_photo_entry : Text → Text → Target → Bool
is_photo_entry album_id photo_id (album_entry name) = false
is_photo_entry album_id photo_id (photo_entry a p) = (a == album_id) && (p == photo_id)
is_photo_entry album_id photo_id (incoming_entry name) = false
