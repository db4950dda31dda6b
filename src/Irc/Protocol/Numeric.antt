-- ===== src/Irc/Protocol/Numeric.antt =====
-- src/irc/protocol.rs: the numeric replies that the server sends.
use matrix_ircd.Prelude.{ℕ}
use matrix_ircd.Text.{Str, codes}

pub data Numeric : Type 0 where
  rpl_welcome rpl_channelmodeis rpl_unaway rpl_nowaway rpl_topic rpl_endofwho : Numeric
  rpl_whoreply rpl_namreply rpl_endofnames rpl_motd rpl_motdstart rpl_endofmotd : Numeric
  rpl_forwarded_channel err_needmoreparams err_passwdmismatch : Numeric

-- The discriminants of the enum.
unfoldable pub discriminant : Numeric → ℕ
discriminant rpl_welcome = 1
discriminant rpl_channelmodeis = 324
discriminant rpl_unaway = 305
discriminant rpl_nowaway = 306
discriminant rpl_topic = 332
discriminant rpl_endofwho = 315
discriminant rpl_whoreply = 352
discriminant rpl_namreply = 353
discriminant rpl_endofnames = 366
discriminant rpl_motd = 372
discriminant rpl_motdstart = 375
discriminant rpl_endofmotd = 376
discriminant rpl_forwarded_channel = 470
discriminant err_needmoreparams = 461
discriminant err_passwdmismatch = 464

unfoldable pub as_str : Numeric → Str
as_str rpl_welcome = codes "001"
as_str rpl_unaway = codes "305"
as_str rpl_nowaway = codes "306"
as_str rpl_channelmodeis = codes "324"
as_str rpl_topic = codes "332"
as_str rpl_endofwho = codes "315"
as_str rpl_whoreply = codes "352"
as_str rpl_namreply = codes "353"
as_str rpl_endofnames = codes "366"
as_str rpl_motd = codes "372"
as_str rpl_motdstart = codes "375"
as_str rpl_endofmotd = codes "376"
as_str rpl_forwarded_channel = codes "470"
as_str err_needmoreparams = codes "461"
as_str err_passwdmismatch = codes "464"
