-- ===== src/Server.antt =====
-- cmd/auth-server: the HTTP handlers, the push to the receivers and the background purge.
mod Defs
mod Redact
mod Push
mod Root
mod Exports
pub mod Access
mod Program
mod Startup
mod Html
mod Pages
pub mod Steps
pub mod Invariant
pub mod Life
pub mod Hiding
pub mod Secrecy
pub mod Markup
pub mod Pushing
pub mod Serving
pub mod Success
unfoldable pub use Push.{do_push, purge_and_sync, reconcile_sync}
pub use Push.{envelope_ttl}
unfoldable pub use Root.{handle_root}
unfoldable pub use Exports.{handle_allow_json, handle_allow_txt}
unfoldable pub use Redact.{redact_secrets}
pub use Defs.{post, body, Server, ServerConfig, Request, World, Page, Export, Notice}
unfoldable pub use Program.{handle, step, serve, new_server, new_extractor, reconciles}
unfoldable pub use Startup.{main, status_of}
unfoldable pub use Html.{markup, escape_string}
unfoldable pub use Pages.{
  render_root, render_auth_form, render_push_section, root_scope, form_scope,
}
pub use Program.{
  Answer, export, Event, request, purge_tick, reconcile_tick, Step, Reach, here, next, purged,
  purged_tick, purge_at,
}
pub use Startup.{Process, Exit, Host, Ending, running, listen_failed, stopped, served}
pub use Pages.{Formats}
