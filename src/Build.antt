-- ===== src/Build.antt =====
-- pkg/build: identifiers, the build graph, its topological order and the rendering of commands.
pub mod Id
pub mod Defs
pub mod TopSort
pub mod Render
pub use Defs.{Text, Cmd, Job, Graph, JobContext}
unfoldable pub use Defs.{text_discrete}
unfoldable pub use Id.{BuildId, id_discrete}
