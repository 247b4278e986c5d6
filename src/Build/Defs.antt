-- ===== src/Build/Defs.antt =====
-- pkg/build/graph.go and the context of pkg/build/cmd.go.
use distbuild.Common.{ℕ, List, Dict, ℕ_discrete}
use distbuild.Build.Id.{BuildId}

-- A Go string, as its bytes.
abbrev pub Text : Type 0
Text = List ℕ

unfoldable pub text_discrete : Discrete Text
unfolding ℕ_discrete
text_discrete = hlevel ℕ_discrete

-- One command. An empty `exec` makes it a `cat` command.
pub record Cmd : Type 0 where
  pub exec : List Text
  pub environ : List Text
  pub working_directory : Text
  pub cat_template : Text
  pub cat_output : Text

-- A vertex of the build graph.
pub record Job : Type 0 where
  pub id : BuildId
  pub name : Text
  pub inputs : List Text
  pub deps : List BuildId
  pub cmds : List Cmd

pub record Graph : Type 0 where
  pub source_files : Dict BuildId Text
  pub jobs : List Job

pub record JobContext : Type 0 where
  pub source_dir : Text
  pub output_dir : Text
  pub deps : Dict BuildId Text
