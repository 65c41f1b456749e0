-- ===== src/Examples.antt =====
-- Tests of the definitions, and the theorems at inputs that meet their hypotheses.
mod Sample
mod Store
mod Server
mod Dialogs
mod Items
mod Shown
mod Helpers
mod Lists
mod Requests
mod Menus
mod Handlers
mod Commands
mod Serving
mod Posts
