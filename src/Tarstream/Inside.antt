-- ===== src/Tarstream/Inside.antt =====
-- Which locations `Receive` of pkg/tarstream/stream.go writes.
use distbuild.Common.{
  ℕ, ◌≡◌, ◌≢◌, refl, sym, ap, subst, ◌∙◌, ◌⊎◌, inl, inr, Bool, [], ◌∷◌, ◌++◌, length, All, arith,
  Option-cases,
}
use distbuild.Build.Defs.{Text}
use distbuild.Tarstream.{
  Name, Member, Location, directory, regular, FileSystem, drop, step, join, mkdir, write_file,
  receive_member, receive, Stream, eof, broken, whole, cut,
}
use distbuild.Tarstream.Paths.{update_other}

-- No part of the name is "..".
abbrev pub StaysDown : Name → Type 0
StaysDown name = All (λ c. c ≢ b'.' ∷ b'.' ∷ []) name

-- No member of the stream goes up.
abbrev pub NoneGoesUp : Stream → Type 0
NoneGoesUp eof = Unit
NoneGoesUp broken = Unit
NoneGoesUp (cut m) = StaysDown m.name
NoneGoesUp (whole m rest) = StaysDown m.name × NoneGoesUp rest

-- `q` is `p` or below it.
abbrev pub Within : Location → Location → Type 0
Within p q = (xs : Location) × (q ≡ xs ++ p)

step_stays : (q : Location) (c : Text) → c ≢ b'.' ∷ b'.' ∷ [] → (step q c ≡ q) ⊎ (step q c ≡ c ∷ q)
unfolding step
step_stays q c ne = ground arith

step-Within : (p q : Location) (c : Text) → c ≢ b'.' ∷ b'.' ∷ [] → Within p q → Within p (step q c)
step-Within p q c ne (xs, e) = elim (step_stays q c ne) [
  | inl same ↦ (xs, same ∙ e)
  | inr down ↦ (c ∷ xs, down ∙ ap (λ l. c ∷ l) e)
]

join-Within : (p q : Location) (name : Name) → StaysDown name → Within p q → Within p (join q name)
unfolding join
join-Within p q [] h w = w
join-Within p q (c ∷ name) (h, hs) w = join-Within p (step q c) name hs (step-Within p q c h w)

module _ (forbids : Location → Bool) (masked : ℕ → ℕ) where
  mkdir_other : (p q : Location) (fs : FileSystem) → q ≢ p → (mkdir forbids p fs).0 q ≡ fs q
  unfolding mkdir
  mkdir_other p q fs ne = ground (arith, update_other fs p q directory ne)

  write_file_other :
      (p q : Location) (mode : ℕ) (body : Text) (fs : FileSystem)
      → q ≢ p
      → (write_file forbids masked p mode body fs).0 q ≡ fs q
  unfolding write_file
  write_file_other p q mode body fs ne = elim (Option-cases (fs p)) [
    | inl e ↦ ground (arith, update_other fs p q (regular (masked mode) body) ne)
    | inr (directory, e) ↦ ground arith
    | inr (regular m old, e) ↦
        ground (arith, update_other fs p q (regular m (body ++ drop (length body) old)) ne)
  ]

  receive_member_other :
      (at q : Location) (m : Member) (fs : FileSystem)
      → q ≢ join at m.name
      → (receive_member forbids masked at m fs).0 q ≡ fs q
  unfolding receive_member
  receive_member_other at q m fs ne = ground (
    arith,
    mkdir_other (join at m.name) q fs ne,
    write_file_other (join at m.name) q m.mode m.body fs ne,
  )

  receive_member_inside :
      (at q : Location) (m : Member) (fs : FileSystem)
      → StaysDown m.name
      → ¬ Within at q
      → (receive_member forbids masked at m fs).0 q ≡ fs q
  receive_member_inside at q m fs down out =
      receive_member_other at q m fs
        (λ e. out (subst (λ x. Within at x) (sym e) (join-Within at at m.name down ([], refl))))

  -- However the stream goes on and however `Receive` ends: if no name of the stream has a part "..",
  -- what is neither the directory nor below it stays as it was.
  pub receive_inside :
      (at q : Location) (stream : Stream) (fs : FileSystem)
      → NoneGoesUp stream
      → ¬ Within at q
      → (receive forbids masked at stream fs).0 q ≡ fs q
  unfolding receive
  receive_inside at q eof fs down out = refl
  receive_inside at q broken fs down out = refl
  receive_inside at q (cut m) fs down out = ground (arith, receive_member_inside at q m fs down out)
  receive_inside at q (whole m rest) fs (down, more) out = ground (
    arith,
    receive_member_inside at q m fs down out,
    receive_inside at q rest (receive_member forbids masked at m fs).0 more out,
  )
