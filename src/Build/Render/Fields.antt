-- ===== src/Build/Render/Fields.antt =====
-- A rendered command is made of the rendered fields.
use mathlib.Core.List.{append-nil, append_assoc}
use distbuild.Common.{◌≡◌, refl, sym, ap, ◌∙◌, List, [], ◌∷◌, ◌++◌, map, Result, ok, err}
use distbuild.Build.Defs.{Text, Cmd, JobContext}
use distbuild.Build.Render.{
  FixedContext, fixed_context, keep_errors, render_one, render_list, outcome, render,
}

module _ {Err : Type 0} (engine : Text → FixedContext → Result Err Text) where
  abbrev pub text_of : Result Err Text → Text
  text_of (ok text) = text
  text_of (err e) = []

  abbrev pub errors_of : Result Err Text → List Err
  errors_of (ok text) = []
  errors_of (err e) = e ∷ []

  abbrev pub all_errors : FixedContext → List Text → List Err
  all_errors ctx [] = []
  all_errors ctx (str ∷ strs) = errors_of (engine str ctx) ++ all_errors ctx strs

  keep_errors_lem :
      (r : Result Err Text) (errs : List Err)
      → keep_errors engine r errs ≡ (text_of r, errs ++ errors_of r)
  unfolding keep_errors
  keep_errors_lem (ok text) errs = ap (λ es. (text, es)) (sym (append-nil errs))
  keep_errors_lem (err e) errs = refl

  render_list_lem :
      (ctx : FixedContext) (strs : List Text) (errs : List Err)
      → render_list engine ctx strs errs
        ≡ (map (λ str. text_of (engine str ctx)) strs, errs ++ all_errors ctx strs)
  unfolding render_list render_one
  render_list_lem ctx [] errs = ap (λ es. ([], es)) (sym (append-nil errs))
  render_list_lem ctx (str ∷ strs) errs =
      ap
        (λ (r : Text × List Err).
          (r.0 ∷ (render_list engine ctx strs r.1).0, (render_list engine ctx strs r.1).1))
        (keep_errors_lem (engine str ctx) errs)
      ∙ ap (λ (r : List Text × List Err). (text_of (engine str ctx) ∷ r.0, r.1))
          (render_list_lem ctx strs (errs ++ errors_of (engine str ctx)))
      ∙ ap (λ es. (text_of (engine str ctx) ∷ map (λ str. text_of (engine str ctx)) strs, es))
          (append_assoc errs (errors_of (engine str ctx)) (all_errors ctx strs))

  -- The templates of a command in the order in which they are rendered.
  abbrev pub templates : Cmd → List Text
  templates c = c.cat_output ∷ c.cat_template ∷ c.working_directory ∷ c.exec ++ c.environ

  abbrev pub rendered : Cmd → FixedContext → Cmd
  rendered c ctx = record {
    exec = map (λ str. text_of (engine str ctx)) c.exec;
    environ = map (λ str. text_of (engine str ctx)) c.environ;
    working_directory = text_of (engine c.working_directory ctx);
    cat_template = text_of (engine c.cat_template ctx);
    cat_output = text_of (engine c.cat_output ctx);
  }

  abbrev pub first_or : Cmd → List Err → Result Err Cmd
  first_or cmd [] = ok cmd
  first_or cmd (e ∷ _) = err e

  all_errors-append :
      (ctx : FixedContext) (xs ys : List Text)
      → all_errors ctx (xs ++ ys) ≡ all_errors ctx xs ++ all_errors ctx ys
  all_errors-append ctx [] ys = refl
  all_errors-append ctx (x ∷ xs) ys =
      ap (◌++◌ (errors_of (engine x ctx))) (all_errors-append ctx xs ys)
      ∙ sym (append_assoc (errors_of (engine x ctx)) (all_errors ctx xs) (all_errors ctx ys))

  outcome_lem : (c : Cmd) (errs : List Err) → outcome engine c errs ≡ first_or c errs
  unfolding outcome
  outcome_lem c [] = refl
  outcome_lem c (e ∷ errs) = refl

  -- Every template is rendered with the same variables; when none fails the command has the rendered
  -- fields, and otherwise the result is the error of the first that fails, in the order of the code.
  pub render_lem :
      (c : Cmd) (ctx : JobContext)
      → render engine c ctx
        ≡ first_or (rendered c (fixed_context ctx)) (all_errors (fixed_context ctx) (templates c))
  unfolding render render_one
  render_lem c ctx =
      rw
        (
          keep_errors_lem (engine c.cat_output fixed) [],
          keep_errors_lem (engine c.cat_template fixed) ([] ++ o),
          keep_errors_lem (engine c.working_directory fixed) (([] ++ o) ++ t),
          render_list_lem fixed c.exec ((([] ++ o) ++ t) ++ w),
          render_list_lem fixed c.environ (((([] ++ o) ++ t) ++ w) ++ x),
        )
        (outcome_lem (rendered c fixed) _ ∙ ap (first_or (rendered c fixed)) joined)
    where
      fixed : FixedContext
      fixed = fixed_context ctx

      o : List Err
      o = errors_of (engine c.cat_output fixed)

      t : List Err
      t = errors_of (engine c.cat_template fixed)

      w : List Err
      w = errors_of (engine c.working_directory fixed)

      x : List Err
      x = all_errors fixed c.exec

      joined :
          ((((o ++ t) ++ w) ++ x) ++ all_errors fixed c.environ) ≡ all_errors fixed (templates c)
      joined =
          append_assoc ((o ++ t) ++ w) x (all_errors fixed c.environ)
          ∙ append_assoc (o ++ t) w (x ++ all_errors fixed c.environ)
          ∙ append_assoc o t (w ++ (x ++ all_errors fixed c.environ))
          ∙ ap (λ r. o ++ (t ++ (w ++ r))) (sym (all_errors-append fixed c.exec c.environ))
