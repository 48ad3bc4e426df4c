-- ===== src/WhiteRabbit/Names.antt =====
-- core/cat/looking_glass/white_rabbit.py: the ids of jobs that are given none.
use Prim.Native.String.{String, ◌++◌}

abbrev pub date_id : String → String → String
date_id name at = name ++ "-" ++ at

abbrev pub interval_id : String → String → String → String → String → String
interval_id name days hours minutes seconds =
    name ++ "-interval-" ++ days ++ "-" ++ hours ++ "-" ++ minutes ++ "-" ++ seconds

abbrev pub cron_id : String → String
cron_id name = name ++ "-cron"

abbrev pub chat_id : String → String
chat_id at = "send_ws_message-" ++ at
