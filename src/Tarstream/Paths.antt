-- ===== src/Tarstream/Paths.antt =====
-- Locations below a directory, for pkg/tarstream/stream.go.
use distbuild.Common.{◌≡◌, ◌≢◌, refl, sym, ap, ◌∙◌, some, [], ◌∷◌, ◌++◌, arith}
use mathlib.Core.List.{append_assoc, append-nil, append_cancel_left, reverse, reverse-append}
use distbuild.Build.Defs.{Text}
use distbuild.Tarstream.{Name, Location, Item, FileSystem, update, step, join}

-- The location that a name has below `p`.
abbrev pub onto : Location → Name → Location
onto p [] = p
onto p (c ∷ name) = onto (c ∷ p) name

-- A name that `filepath.Join` leaves as it is.
abbrev pub IsClean : Text → Type 0
IsClean c = (c ≢ []) × (c ≢ b'.' ∷ []) × (c ≢ b'.' ∷ b'.' ∷ [])

pub step_clean : (p : Location) (c : Text) → IsClean c → step p c ≡ c ∷ p
unfolding step
step_clean p c (a, b, d) = ground arith

pub join-snoc :
    (p : Location) (name : Name) (c : Text) → join p (name ++ c ∷ []) ≡ step (join p name) c
unfolding join
join-snoc p [] c = refl
join-snoc p (d ∷ name) c = join-snoc (step p d) name c

reverse-onto : (p : Location) (name : Name) → reverse (onto p name) ≡ reverse p ++ name
reverse-onto p [] = sym (append-nil (reverse p))
reverse-onto p (c ∷ name) =
    reverse-onto (c ∷ p) name
    ∙ ap (λ l. l ++ name) (reverse-append (c ∷ []) p)
    ∙ append_assoc (reverse p) (c ∷ []) name

-- Different names have different locations.
pub onto_inj : (p : Location) (xs ys : Name) → onto p xs ≡ onto p ys → xs ≡ ys
onto_inj p xs ys h =
    append_cancel_left (reverse p) xs ys
      (sym (reverse-onto p xs) ∙ ap reverse h ∙ reverse-onto p ys)

pub onto_ne : (p : Location) (c : Text) (name : Name) → onto p (c ∷ name) ≢ p
onto_ne p c name h = absurd (ground (arith, onto_inj p (c ∷ name) [] h))

pub onto_other :
    (p : Location) (c d : Text) (xs ys : Name) → c ≢ d → onto p (c ∷ xs) ≢ onto p (d ∷ ys)
onto_other p c d xs ys ne h = ne (ground (arith, onto_inj p (c ∷ xs) (d ∷ ys) h))

pub update_self : (fs : FileSystem) (p : Location) (item : Item) → update fs p item p ≡ some item
unfolding update
update_self fs p item = ground arith

pub update_other :
    (fs : FileSystem) (p q : Location) (item : Item) → q ≢ p → update fs p item q ≡ fs q
unfolding update
update_other fs p q item ne = ground arith
