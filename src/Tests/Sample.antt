-- ===== src/Tests/Sample.antt =====
-- Settings that the runs share.
use gensokyo_discord.Prelude.{false, true, [], codes}
use gensokyo_discord.Config.{Settings}

abbrev pub plain_settings : Settings
plain_settings = record {
  lotus = false;
  server_dir = codes "localhost";
  port = codes "5700";
  hash_id = true;
  idmap_pro = false;
  master_id = [];
  bind_prefix = codes "/bind";
  me_prefix = codes "/me";
  unlock_prefix = codes "/unlock";
  lotus_password = [];
  app_id = 77;
  ws_server_token = [];
  ws_address = [];
  ws_token = [];
  array = false;
  two_way_echo = false;
  string_ob11 = false;
  native_ob11 = false;
  lazy_message_id = false;
  dev_message_id = false;
  white_prefix_mode = false;
  white_prefixs = [];
  white_bypass = [];
  no_white_response = [];
  black_prefix_mode = false;
  black_prefixs = [];
  visual_prefixs = [];
  remove_prefix = false;
  remove_at = false;
  image_limit_b = 100;
  url_pic_transfer = true;
  frp_port = codes "0";
  reconnec_times = 50;
  username = [];
  password = [];
  post_url = [];
  global_channel_to_group = false;
  global_private_to_channel = false;
}
