-- ===== src/Build/Render/Tests.antt =====
-- An engine that knows one variable and rejects the empty template.
use distbuild.Common.{ℕ, ◌≡◌, [], ◌∷◌, ◌++◌, Result, ok, err}
use distbuild.Build.Defs.{Text, Cmd, JobContext}
use distbuild.Build.Render.{FixedContext, fixed_context, render}
use distbuild.Build.Render.Fields.{templates, rendered, all_errors, first_or, render_lem}

abbrev engine : Text → FixedContext → Result ℕ Text
engine [] ctx = err 1
engine (b ∷ bs) ctx = ok (ctx.output_dir ++ b ∷ bs)

abbrev cmd : Cmd
cmd = record {
  exec = (b'c' ∷ []) ∷ [];
  environ = [];
  working_directory = b'w' ∷ [];
  cat_template = b't' ∷ [];
  cat_output = b'o' ∷ [];
}

abbrev ctx : JobContext
ctx = record { source_dir = []; output_dir = b'/' ∷ []; deps = [] }

render_lem_example :
    render engine cmd ctx
    ≡ first_or engine
        (rendered engine cmd (fixed_context ctx))
        (all_errors engine (fixed_context ctx) (templates engine cmd))
render_lem_example = render_lem engine cmd ctx
