-- ===== src/Lib.antt =====
-- The Todo plugin: its web app, webapp/src of the repository, and its server.
--
-- The plugin adds lists of todo issues to a team chat. Its web app keeps a slice of the host's redux
-- store, asks the plugin's server for the lists and for changes to them, and shows them in the
-- right-hand side. A user adds an issue on a card, perhaps for a post and for somebody else, assigns
-- issues in a dialog, completes and removes them with a toast that offers to undo this, and is reminded
-- after an hour without a click.
--
-- The parts, and the files that model them:
--
--   Model            the data: issues and lists as the server sends them (server/issue.go), users, toasts
--   ActionTypes      action_types.js: the types of the store's actions, and their texts
--   Store            reducer.js: a record of the slices, one function for each, and `reducer` for all
--     Store.Slices   the reducer against an independent description: the latest action that writes a slice
--     Store.Card     the post of the add card
--   Selectors        selectors.js, over a record of the host's state; SiteUrl and Visibility prove
--   Constants        constants.jsx; Codes shows that key codes tell the keys apart
--   Utils            utils.js; Keys, Names and Permissions prove; Inputs has selections and colours
--   Actions          actions.js: the actions that each thunk dispatches, its request, and what an answer
--                    changes; Requests and Replies prove
--   AddIssue         components/add_issue: the card, in Mapping (`mapStateToProps` and the update that
--                    follows an event), Derived, Submitting and Typing
--   Assignee         components/assignee_modal and hooks/useEscapeKey.ts; Assigning and Editing prove
--   TodoItem         components/todo_item and components/buttons/complete.jsx: an item and its timers;
--                    Rules says what an invariant has to show, Timers that events keep it; Completing
--                    and Undoing prove; Shown is what an item shows, Dates its date and time
--   Sidebar          components/sidebar_right and components/todo_issues; Lists and Opening prove
--   SidebarButtons   components/sidebar_buttons, team_sidebar and channel_header_button
--   TodoToast        widget/todo_toast; Lifetime proves
--   Menus            widget/menuWrapper.tsx and widget/menuItem.tsx: the menus of a page and the shortcuts
--                    of their entries; Page and Shortcuts prove
--   RootDialog       components/root, an older dialog that adds an issue; Filling proves
--   Widgets          the classes of the small components of widget, components/buttons, components/icons
--   UserSelector     components/user_selector and components/modals; Options proves
--   PostTypeTodo     components/post_type_todo
--   Bot              server/bot.go: the posts of the bot. Answering and Giving prove when PostTypeTodo shows
--                    the receiver of an issue the buttons of its post
--   Plugin           index.js: the callbacks that the plugin registers; Activity and PostMenu prove
--   ListStore        server/store.go: the references in a list of a user, and the loops that change them;
--                    Bumping and Removing prove what becomes of a list, Racing what holds while others
--                    write the key, Sequential what holds while nobody does, Distinct that a list has no issue
--                    twice, Ending how many iterations a loop needs
--   Db               server/store.go as one request sees it: issues and lists, and a host that may fail at
--                    each call; Laws, Places and Reads say what operations do while it does not, Keeping
--                    how an invariant is shown of them; Valid has one, Calm that a host goes on not
--                    failing, and Safe that operations do not panic where Valid's holds
--   ListManager      server/list.go: the operations on lists of issues, over those of Db. Reading is what
--                    the web app is told; Sending, Accepting, Completing, Editing, Removing, Assigning,
--                    Showing and Returning prove what they do, Failing what is left when the host fails,
--                    Keeping and Listing that they keep what Db keeps, Safe that they do not panic, and Requests puts requests after
--                    each other
--   Handlers         server/plugin.go: the HTTP handlers that change lists, those that add, edit and give
--                    issues in Adding, the lists and the daily reminder in Listing; Panicking and
--                    Reminding prove
--   Serving          server/plugin.go and server/serializer.go: the router and the bodies of requests.
--                    Asked has what the web app's calls are for, Operating and Calls prove that the
--                    server does this, Saving from the key in the add card on; Tracking is what the
--                    web app reports, with server/telemetry.go
--   Commands         server/command.go: the command /todo. Words is how its text is read, with Reading and
--                    Filled about it; Texts has the answers, Handling what handlers share, Lists and
--                    Settings the subcommands. Adding, Popping, Setting, Blocking and Storing prove what
--                    they do, Running and Panicking when they panic, Calling puts commands and requests
--                    after each other
--   Configuration    server/configuration.go; Following proves that the web app follows it
--   Preferences      server/store.go: the times of reminders and the preferences of users; Keys proves
--   Common           truth values, tests on numbers and texts, lists, and what all files use of libraries
--   Examples         the theorems listed below at concrete data, with further tests
--
-- How the code is rendered. A function of the source has its name in snake_case. A thunk is an `Effect`:
-- an action of the store or a call of the server. An event handler of a component gives its new state and
-- its effects, and `perform` of Actions carries effects out on a `World`, the host's state with the
-- requests sent so far. A component is stepped by its events (`step`), after which its props are read from
-- the store again and its derived state is settled, as the library that renders it does. A server's
-- answer is a value of `Reply` that a function of its own receives, so that answers may come in any order
-- between the events, or never. A selector or a rendering that may throw gives `none` then. `null`,
-- `undefined` and a missing property are told apart where the source does so, and are `none` elsewhere.
--
-- Timers. An item has a clock and the list of its pending timers; `wait` lets time pass, and
-- `fire_timer` runs a timer that is due, so that a timer may run late, as in a browser. Times are in
-- milliseconds. Numbers are natural numbers: none of the modelled code subtracts below zero, but for the
-- first click after the start, where the last activity is the greatest safe integer of the language.
--
-- Parameters. `pathname` is the path of a URL, absent where the URL cannot be parsed; `to_upper` is
-- the upper case of a text; `number_text` and `format_int` give the text of a number, which
-- `parse_int` reads, and a `LocalTime` is what the host makes of a time stamp; `image_url_for_user`
-- gives a user's picture, and `username` the name of a user of the server; `change_opacity` and
-- `blend_colors` are the host's functions on colours. Of the server, `decode`, `decode_legacy` and
-- `encode` are the two JSON formats of a list, `same` is the host's comparison of two values of a key,
-- and a `Race` is what happens to the key during one try. Nothing is assumed of them beyond the
-- hypotheses that the theorems state. All functions are total. The loop of `retry` has the number of
-- its tries, three in the source; the loop of `remove_loop` has the number of its iterations, which is
-- the length of the array it runs over.
--
-- The server's store. `Db` is what the host stores, the ids that it is going to make, and `faults`,
-- which says of each call of the host to come whether it fails; the calls after its end succeed.
-- Requests follow each other there: the operations of Db read and write a list at once, and ListStore
-- has what others write meanwhile. A list is in the current format, and the JSON of an issue is that
-- of the issue. A reference of Go that is nil is `none`; what is only logged is left out, and so is
-- what is returned beside an error. A panic is a result of its own, which ends the request: nothing that
-- would follow it is done, and the router recovers from it.
--
-- Commands. A text is a list of characters, and `is_space` and `is_gap` are the two kinds of white space
-- that the language's library knows. A handler of a subcommand gives a `Ran`: whom it has told, what it
-- returns, and whether it has panicked. `find_user` finds a user by name, `format_date` writes a time, and
-- `atoi` and `date_in` are what the host makes of an offset and of a time in a zone.
--
-- Not modelled: styling and markup, translations, drawings, build files, and of the server what
-- it reports itself, the start of the plugin, and the data for the completion of commands.
pub mod Common
pub mod Model
pub mod ActionTypes
pub mod Store
pub mod Selectors
pub mod Commands
pub mod Configuration
pub mod Constants
pub mod Utils
pub mod Actions
pub mod AddIssue
pub mod Assignee
pub mod TodoItem
pub mod Serving
pub mod Sidebar
pub mod SidebarButtons
pub mod TodoToast
pub mod Menus
pub mod RootDialog
pub mod Widgets
pub mod UserSelector
pub mod Bot
pub mod PostTypeTodo
pub mod Plugin
pub mod ListStore
pub mod Preferences
pub mod Db
pub mod ListManager
pub mod Handlers
pub mod Examples
