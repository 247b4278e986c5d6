-- ===== src/Tarstream/RoundTrip.antt =====
-- What `Receive` makes of what `Send` writes.
use distbuild.Common.{
  ℕ, ◌≡◌, ◌≢◌, refl, sym, ap, subst, ◌∙◌, ◌⊎◌, inl, inr, Bool, false, Option, none, some, List, [],
  ◌∷◌, ◌++◌, ite, arith,
}
use mathlib.Core.List.{append_assoc}
use distbuild.Build.Defs.{Text, text_discrete}
use distbuild.Tarstream.{
  Name, Node, Entries, dir, file, unreadable, end, entry, Member, dir_header, Location, Item,
  directory, regular, FileSystem, update, step, join, parent_error, mkdir, write_file,
  receive_member, receive, to_stream, whole,
}
use distbuild.Tarstream.Sending.{list_node, list_entries, content}
use distbuild.Tarstream.Paths.{
  onto, IsClean, step_clean, join-snoc, onto_ne, onto_other, update_self, update_other,
}

abbrev In : Text → Entries → Type 0
In c end = ⊥
In c (entry d node es) = (d ≡ c) ⊎ In c es

-- The names of a directory are different and clean.
unfoldable mutual
  pub Proper : Node → Type 0
  Proper (dir es) = AllProper es
  Proper (file mode size opened) = Unit
  Proper unreadable = Unit

  pub AllProper : Entries → Type 0
  AllProper end = Unit
  AllProper (entry c node es) = IsClean c × ¬ In c es × Proper node × AllProper es

-- What stands at a name within a tree, in a system that makes `masked` of a mode; the mode of a
-- directory is not kept.
module _ (masked : ℕ → ℕ) where
  unfoldable mutual
    pub find_node : Node → Name → Option Item
    find_node (dir es) [] = some directory
    find_node (dir es) (c ∷ name) = find es c name
    find_node (file mode size opened) [] = some (regular (masked mode) (content opened))
    find_node (file mode size opened) (c ∷ name) = none
    find_node unreadable name = none

    pub find : Entries → Text → Name → Option Item
    find end c name = none
    find (entry d node es) c name = ite (text_discrete d c) (find_node node name) (find es c name)

module _ (masked : ℕ → ℕ) where
  -- The tree written below `p`, with no regard to errors.
  mutual
    place_node : Location → Node → FileSystem → FileSystem
    place_node p (dir es) fs = place p es (update fs p directory)
    place_node p (file mode size opened) fs = update fs p (regular (masked mode) (content opened))
    place_node p unreadable fs = fs

    place : Location → Entries → FileSystem → FileSystem
    place p end fs = fs
    place p (entry c node es) fs = place p es (place_node (c ∷ p) node fs)

  mutual
    unfolding place

    place_node_outside :
        (p : Location) (n : Node) (fs : FileSystem) (q : Location)
        → ((name : Name) → q ≢ onto p name)
        → place_node p n fs q ≡ fs q
    place_node_outside p (dir es) fs q away =
        place_outside p es (update fs p directory) q (λ c name. away (c ∷ name))
        ∙ update_other fs p q directory (away [])
    place_node_outside p (file mode size opened) fs q away =
        update_other fs p q (regular (masked mode) (content opened)) (away [])
    place_node_outside p unreadable fs q away = refl

    place_outside :
        (p : Location) (es : Entries) (fs : FileSystem) (q : Location)
        → ((c : Text) (name : Name) → q ≢ onto p (c ∷ name))
        → place p es fs q ≡ fs q
    place_outside p end fs q away = refl
    place_outside p (entry c node es) fs q away =
        place_outside p es (place_node (c ∷ p) node fs) q away
        ∙ place_node_outside (c ∷ p) node fs q (away c)

  -- A name that the directory does not list stays as it is.
  place_unlisted :
      (p : Location) (es : Entries) (fs : FileSystem) (c : Text) (name : Name)
      → ¬ In c es
      → place p es fs (onto p (c ∷ name)) ≡ fs (onto p (c ∷ name))
  unfolding place
  place_unlisted p end fs c name out = refl
  place_unlisted p (entry d node es) fs c name out =
      place_unlisted p es (place_node (d ∷ p) node fs) c name (λ h. out (inr h))
      ∙ place_node_outside (d ∷ p) node fs (onto p (c ∷ name))
          (λ more. onto_other p c d name more (λ e. out (inl (sym e))))

  mutual
    unfolding place find Proper

    place_node-find_node :
        (p : Location) (n : Node) (fs : FileSystem) (name : Name)
        → Proper n
        → fs (onto p name) ≡ none
        → place_node p n fs (onto p name) ≡ find_node masked n name
    place_node-find_node p (dir es) fs [] proper free =
        place_outside p es (update fs p directory) p (λ c name e. onto_ne p c name (sym e))
        ∙ update_self fs p directory
    place_node-find_node p (dir es) fs (c ∷ name) proper free =
        place-find p es (update fs p directory) c name proper
          (update_other fs p (onto p (c ∷ name)) directory (onto_ne p c name) ∙ free)
    place_node-find_node p (file mode size opened) fs [] proper free =
        update_self fs p (regular (masked mode) (content opened))
    place_node-find_node p (file mode size opened) fs (c ∷ name) proper free =
        update_other fs p (onto p (c ∷ name)) (regular (masked mode) (content opened))
          (onto_ne p c name)
        ∙ free
    place_node-find_node p unreadable fs name proper free = free

    place-find :
        (p : Location) (es : Entries) (fs : FileSystem) (c : Text) (name : Name)
        → AllProper es
        → fs (onto p (c ∷ name)) ≡ none
        → place p es fs (onto p (c ∷ name)) ≡ find masked es c name
    place-find p end fs c name proper free = free
    place-find p (entry d node es) fs c name (clean, out, proper, rest) free =
        elim (text_discrete d c)
          as (λ t.
            place p es (place_node (d ∷ p) node fs) (onto p (c ∷ name))
            ≡ ite t (find_node masked node name) (find masked es c name)) [
              | yes same ↦
                  subst
                    (λ x.
                      place p es (place_node (x ∷ p) node fs) (onto p (c ∷ name))
                      ≡ find_node masked node name)
                    (sym same)
                    (place_unlisted p es (place_node (c ∷ p) node fs) c name
                        (subst (λ x. ¬ In x es) same out)
                      ∙ place_node-find_node (c ∷ p) node fs name proper free)
              | no other ↦ place-find p es (place_node (d ∷ p) node fs) c name rest (
                  place_node_outside (d ∷ p) node fs (onto p (c ∷ name))
                    (λ more. onto_other p c d name more (λ e. other (sym e)))
                  ∙ free)
            ]

module _ (masked : ℕ → ℕ) (forbids : Location → Bool) (allows : (p : Location) → forbids p ≡ false)
    (at : Location) where
  mutual
    unfolding place list_node Proper receive receive_member mkdir write_file parent_error to_stream

    receive_node :
        (name : Name) (c : Text) (p : Location) (n : Node) (ms : List Member) (fs : FileSystem)
        → join at (name ++ c ∷ []) ≡ c ∷ p
        → fs p ≡ some directory
        → ((more : Name) → fs (onto p (c ∷ more)) ≡ none)
        → Proper n
        → receive forbids masked at (to_stream (list_node (name ++ c ∷ []) n ++ ms)) fs
          ≡ receive forbids masked at (to_stream ms) (place_node masked (c ∷ p) n fs)
    receive_node name c p (dir es) ms fs here up free proper =
        let name' = name ++ c ∷ [] in
        let made : receive forbids masked at
              (whole (dir_header name') (to_stream (list_entries name' es ++ ms))) fs
            ≡ receive forbids masked at (to_stream (list_entries name' es ++ ms))
                (update fs (c ∷ p) directory) =
          ground (arith, here, up, free [], allows (c ∷ p)) in
        made
        ∙ receive_entries name' (c ∷ p) es ms (update fs (c ∷ p) directory) here
            (update_self fs (c ∷ p) directory)
            (λ d more listed.
              update_other fs (c ∷ p) (onto p (c ∷ d ∷ more)) directory (onto_ne (c ∷ p) d more)
              ∙ free (d ∷ more))
            proper
    receive_node name c p (file mode size opened) ms fs here up free proper =
        ground (arith, here, up, free [], allows (c ∷ p))
    receive_node name c p unreadable ms fs here up free proper = refl

    receive_entries :
        (name : Name) (p : Location) (es : Entries) (ms : List Member) (fs : FileSystem)
        → join at name ≡ p
        → fs p ≡ some directory
        → ((c : Text) (more : Name) → In c es → fs (onto p (c ∷ more)) ≡ none)
        → AllProper es
        → receive forbids masked at (to_stream (list_entries name es ++ ms)) fs
          ≡ receive forbids masked at (to_stream ms) (place masked p es fs)
    receive_entries name p end ms fs here up free proper = refl
    receive_entries name p (entry c node es) ms fs here up free (clean, out, proper, rest) =
        ap (λ l. receive forbids masked at (to_stream l) fs)
          (append_assoc (list_node (name ++ c ∷ []) node) (list_entries name es) ms)
        ∙ receive_node name c p node (list_entries name es ++ ms) fs
            (join-snoc at name c ∙ ap (λ l. step l c) here ∙ step_clean p c clean) up
            (λ more. free c more (inl refl)) proper
        ∙ receive_entries name p es ms (place_node masked (c ∷ p) node fs) here
            (place_node_outside masked (c ∷ p) node fs p (λ more e. onto_ne p c more (sym e)) ∙ up)
            (λ d more listed.
              place_node_outside masked (c ∷ p) node fs (onto p (d ∷ more))
                (λ other. onto_other p d c more other (λ e. out (subst (λ x. In x es) e listed)))
              ∙ free d more (inr listed))
            rest
