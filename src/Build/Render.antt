-- ===== src/Build/Render.antt =====
-- pkg/build/cmd.go: `Render`. The template engine is a parameter: a template and the variables give a
-- text or an error.
pub mod Fields
pub mod Tests
use distbuild.Common.{
  ◌≡◌, Option, none, some, List, [], ◌∷◌, ◌++◌, map, Dict, insert, Result, ok, err,
}
use distbuild.Build.Id.{BuildId, to_string}
use distbuild.Build.Defs.{Text, text_discrete, Cmd, JobContext}

-- `fixedCtx`: the dependencies under the text of their identifiers.
pub record FixedContext : Type 0 where
  pub source_dir : Text
  pub output_dir : Text
  pub deps : Dict Text Text

fixed_deps : Dict BuildId Text → Dict Text Text → Dict Text Text
fixed_deps [] deps = deps
fixed_deps ((id, dir) ∷ rest) deps = fixed_deps rest (insert text_discrete deps (to_string id) dir)

pub fixed_context : JobContext → FixedContext
fixed_context ctx = record {
  source_dir = ctx.source_dir;
  output_dir = ctx.output_dir;
  deps = fixed_deps ctx.deps [];
}

module _ {Err : Type 0} (engine : Text → FixedContext → Result Err Text) where
  -- A rendered text and the errors so far. An error gives the empty text.
  keep_errors : Result Err Text → List Err → Text × List Err
  keep_errors (ok text) errs = (text, errs)
  keep_errors (err e) errs = ([], errs ++ e ∷ [])

  render_one : FixedContext → Text → List Err → Text × List Err
  render_one ctx str errs = keep_errors (engine str ctx) errs

  render_list : FixedContext → List Text → List Err → List Text × List Err
  render_list ctx [] errs = ([], errs)
  render_list ctx (str ∷ strs) errs =
      let (text, errs') = render_one ctx str errs in
      let (texts, errs'') = render_list ctx strs errs' in (text ∷ texts, errs'')

  -- The first error is returned.
  outcome : Cmd → List Err → Result Err Cmd
  outcome cmd [] = ok cmd
  outcome cmd (e ∷ _) = err e

  pub render : Cmd → JobContext → Result Err Cmd
  render c ctx =
      let fixed = fixed_context ctx in
      let (cat_output, e1) = render_one fixed c.cat_output [] in
      let (cat_template, e2) = render_one fixed c.cat_template e1 in
      let (working_directory, e3) = render_one fixed c.working_directory e2 in
      let (exec, e4) = render_list fixed c.exec e3 in
      let (environ, e5) = render_list fixed c.environ e4 in
      outcome
        (record {
          exec = exec;
          environ = environ;
          working_directory = working_directory;
          cat_template = cat_template;
          cat_output = cat_output;
        })
        e5
