-- ===== src/Irc/User/Writes.antt =====
-- src/irc/mod.rs: what a user connection writes to the client, line by line.
use matrix_ircd.Prelude.{◌≡◌, refl, List, [], ◌∷◌, ◌++◌, map}
use matrix_ircd.Text.{Str, split}
use matrix_ircd.Irc.User.{
  IrcUserConnection, write_line, write_each, message_line, action_line, send_message, send_action,
}

write_each-server_model :
    (lines : List Str) (c : IrcUserConnection) (format : Str → Str)
    → (write_each c format lines).server_model ≡ c.server_model
unfolding write_each write_line
write_each-server_model [] c format = refl
write_each-server_model (line ∷ lines) c format =
    write_each-server_model lines (write_line c (format line)) format

pub send_message-server_model :
    (c : IrcUserConnection) (channel sender body : Str)
    → (send_message c channel sender body).server_model ≡ c.server_model
unfolding send_message
send_message-server_model c channel sender body =
    write_each-server_model (split b'\n' body) c (message_line channel sender)

pub send_action-server_model :
    (c : IrcUserConnection) (channel sender body : Str)
    → (send_action c channel sender body).server_model ≡ c.server_model
unfolding send_action
send_action-server_model c channel sender body =
    write_each-server_model (split b'\n' body) c (action_line channel sender)

-- These lines are written, one after the other.
unfoldable pub write_all : IrcUserConnection → List Str → IrcUserConnection
write_all c [] = c
write_all c (line ∷ lines) = write_all (write_line c line) lines

pub write_all-append :
    (xs ys : List Str) (c : IrcUserConnection)
    → write_all c (xs ++ ys) ≡ write_all (write_all c xs) ys
unfolding write_all
write_all-append [] ys c = refl
write_all-append (x ∷ xs) ys c = write_all-append xs ys (write_line c x)

write_each-write_all :
    (format : Str → Str) (lines : List Str) (c : IrcUserConnection)
    → write_each c format lines ≡ write_all c (map format lines)
unfolding write_each write_all
write_each-write_all format [] c = refl
write_each-write_all format (line ∷ lines) c =
    write_each-write_all format lines (write_line c (format line))

pub message_written :
    (channel nick body : Str) (c : IrcUserConnection)
    → send_message c channel nick body
      ≡ write_all c (map (message_line channel nick) (split b'\n' body))
unfolding send_message
message_written channel nick body c =
    write_each-write_all (message_line channel nick) (split b'\n' body) c

pub action_written :
    (channel nick body : Str) (c : IrcUserConnection)
    → send_action c channel nick body
      ≡ write_all c (map (action_line channel nick) (split b'\n' body))
unfolding send_action
action_written channel nick body c =
    write_each-write_all (action_line channel nick) (split b'\n' body) c
