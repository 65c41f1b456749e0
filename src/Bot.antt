-- ===== src/Bot.antt =====
-- The posts of the bot: server/bot.go, and `postReplyIfNeeded` of server/plugin.go. What is logged
-- is left out.
pub mod Answering
pub mod Giving
use okrbest_plugin_todo.Common.{
  String, Bool, Option, none, some, List, [], ◌∷◌, ◌++◌, truthy, str_eq, concat, if◌then◌else◌,
}
use okrbest_plugin_todo.Handlers.{Notice, refresh, dm, custom_dm, reply, ephemeral}

-- the properties of a post of the type `custom_todo`
pub record TodoProps : Type 0 where
  pub message : String
  pub todo : String
  pub post_permalink : String
  pub issue_id : String

-- A post of the bot. One with properties has the type `custom_todo`, and one with no root stands
-- alone.
pub record Post : Type 0 where
  pub channel_id : String
  pub message : String
  pub props : Option TodoProps
  pub root_id : String

-- What the host does: the channel of the bot and a user, absent where it fails or there is none; a
-- post's id, channel and root, absent where it fails; and whether it fails to create a post.
pub record Host : Type 0 where
  pub direct_channel : String → Option String
  pub get_post : String → Option (String × String × String)
  pub creating_fails : Bool

module _ (host : Host) where
  -- `CreatePost`, with the posts that there are then
  abbrev pub create_post : Post → List Post
  create_post post = if host.creating_fails then [] else post ∷ []

  unfoldable pub create_bot_post_dm : Post → String → List Post
  create_bot_post_dm post user = elim (host.direct_channel user) [
    | none ↦ []
    | some channel ↦ create_post (record post { channel_id = channel })
  ]

  unfoldable pub post_bot_dm : String → String → List Post
  unfolding create_bot_post_dm
  post_bot_dm user message =
      create_bot_post_dm (record { channel_id = ""; message = message; props = none; root_id = "" })
        user

  unfoldable pub post_bot_custom_dm :
      (user message todo post_permalink issue_id : String) → List Post
  unfolding create_bot_post_dm
  post_bot_custom_dm user message todo post_permalink issue_id =
      create_bot_post_dm
        (record {
          channel_id = "";
          message = concat (message ∷ ": " ∷ todo ∷ []);
          props = some (record {
            message = message;
            todo = todo;
            post_permalink = post_permalink;
            issue_id = issue_id;
          });
          root_id = "";
        })
        user

  -- The errors of `ReplyPostBot` are only logged.
  unfoldable pub reply_post_bot : (post_id message todo post_permalink : String) → List Post
  reply_post_bot post_id message todo post_permalink =
      if str_eq post_id "" then [] else elim (host.get_post post_id) [
        | none ↦ []
        | some (id, channel, root) ↦ create_post (record {
          channel_id = channel;
          message =
              concat
                (message ∷ "\n> " ∷ todo ∷ "\n> " ∷ "[Permalink](" ∷ post_permalink ∷ ")" ∷ []);
          props = none;
          root_id = if truthy root then root else id;
        })
      ]

  -- the posts of the bot for a notice
  unfoldable pub post_of : Notice → List Post
  unfolding post_bot_dm post_bot_custom_dm reply_post_bot
  post_of (refresh user lists) = []
  post_of (dm user message) = post_bot_dm user message
  post_of (custom_dm user message todo post_permalink issue_id) =
      post_bot_custom_dm user message todo post_permalink issue_id
  post_of (reply post_id message todo post_permalink) =
      if truthy post_id then reply_post_bot post_id message todo post_permalink else []
  post_of (ephemeral user channel message) = []

  unfoldable pub posted : List Notice → List Post
  unfolding post_of
  posted [] = []
  posted (n ∷ ns) = post_of n ++ posted ns
