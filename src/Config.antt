-- ===== src/Config.antt =====
-- The settings of config/config.go that the modelled code reads, and their getters. `none` is a
-- program whose configuration was not loaded.
use gensokyo_discord.Strconv.{decimal}
use gensokyo_discord.Prelude.{ℕ, Bool, true, false, Option, none, some, List, [], Text, codes}

pub record Settings : Type 0 where
  pub lotus : Bool
  pub server_dir : Text
  pub port : Text
  pub hash_id : Bool
  pub idmap_pro : Bool
  pub master_id : List Text
  pub bind_prefix : Text
  pub me_prefix : Text
  pub unlock_prefix : Text
  pub lotus_password : Text
  pub app_id : ℕ
  pub ws_server_token : Text
  pub ws_address : List Text
  pub ws_token : List Text
  pub array : Bool
  pub two_way_echo : Bool
  pub string_ob11 : Bool
  pub native_ob11 : Bool
  pub lazy_message_id : Bool
  pub dev_message_id : Bool
  pub white_prefix_mode : Bool
  pub white_prefixs : List Text
  pub white_bypass : List ℕ
  pub no_white_response : Text
  pub black_prefix_mode : Bool
  pub black_prefixs : List Text
  pub visual_prefixs : List Text
  pub remove_prefix : Bool
  pub remove_at : Bool
  pub image_limit_b : ℕ
  pub url_pic_transfer : Bool
  pub frp_port : Text
  pub reconnec_times : ℕ
  pub username : Text
  pub password : Text
  pub post_url : List Text
  pub global_channel_to_group : Bool
  pub global_private_to_channel : Bool

abbrev read {ℓ} : {A : Type ℓ} → A → (Settings → A) → Option Settings → A
read default field none = default
read default field (some s) = field s

abbrev pub get_lotus_value : Option Settings → Bool
get_lotus_value = read false (λ s. s.lotus)

abbrev pub get_server_dir : Option Settings → Text
get_server_dir = read [] (λ s. s.server_dir)

abbrev pub get_port_value : Option Settings → Text
get_port_value = read [] (λ s. s.port)

abbrev pub get_hash_id_value : Option Settings → Bool
get_hash_id_value = read false (λ s. s.hash_id)

abbrev pub get_idmap_pro : Option Settings → Bool
get_idmap_pro = read false (λ s. s.idmap_pro)

abbrev pub get_master_id : Option Settings → List Text
get_master_id = read [] (λ s. s.master_id)

abbrev pub get_bind_prefix : Option Settings → Text
get_bind_prefix = read (codes "/bind") (λ s. s.bind_prefix)

abbrev pub get_me_prefix : Option Settings → Text
get_me_prefix = read (codes "/me") (λ s. s.me_prefix)

abbrev pub get_unlock_prefix : Option Settings → Text
get_unlock_prefix = read (codes "/unlock") (λ s. s.unlock_prefix)

abbrev pub get_lotus_password : Option Settings → Text
get_lotus_password = read [] (λ s. s.lotus_password)

abbrev pub get_app_id : Option Settings → ℕ
get_app_id = read 0 (λ s. s.app_id)

abbrev pub get_ws_server_token : Option Settings → Text
get_ws_server_token = read [] (λ s. s.ws_server_token)

abbrev pub get_ws_address : Option Settings → List Text
get_ws_address = read [] (λ s. s.ws_address)

abbrev pub get_ws_token : Option Settings → List Text
get_ws_token = read [] (λ s. s.ws_token)

abbrev pub get_array_value : Option Settings → Bool
get_array_value = read false (λ s. s.array)

abbrev pub get_two_way_echo : Option Settings → Bool
get_two_way_echo = read false (λ s. s.two_way_echo)

abbrev pub get_string_ob11 : Option Settings → Bool
get_string_ob11 = read false (λ s. s.string_ob11)

abbrev pub get_native_ob11 : Option Settings → Bool
get_native_ob11 = read false (λ s. s.native_ob11)

abbrev pub get_lazy_message_id : Option Settings → Bool
get_lazy_message_id = read false (λ s. s.lazy_message_id)

abbrev pub get_dev_msg_id : Option Settings → Bool
get_dev_msg_id = read false (λ s. s.dev_message_id)

abbrev pub get_white_prefix_mode : Option Settings → Bool
get_white_prefix_mode = read false (λ s. s.white_prefix_mode)

abbrev pub get_white_prefixs : Option Settings → List Text
get_white_prefixs = read [] (λ s. s.white_prefixs)

abbrev pub get_white_bypass : Option Settings → List ℕ
get_white_bypass = read [] (λ s. s.white_bypass)

abbrev pub get_no_white_response : Option Settings → Text
get_no_white_response = read [] (λ s. s.no_white_response)

abbrev pub get_black_prefix_mode : Option Settings → Bool
get_black_prefix_mode = read false (λ s. s.black_prefix_mode)

abbrev pub get_black_prefixs : Option Settings → List Text
get_black_prefixs = read [] (λ s. s.black_prefixs)

abbrev pub get_visualk_prefixs : Option Settings → List Text
get_visualk_prefixs = read [] (λ s. s.visual_prefixs)

abbrev pub get_remove_prefix_value : Option Settings → Bool
get_remove_prefix_value = read false (λ s. s.remove_prefix)

abbrev pub get_remove_at : Option Settings → Bool
get_remove_at = read false (λ s. s.remove_at)

abbrev pub get_url_pic_transfer : Option Settings → Bool
get_url_pic_transfer = read true (λ s. s.url_pic_transfer)

abbrev pub get_image_limit_b : Option Settings → ℕ
get_image_limit_b = read 100 (λ s. s.image_limit_b)

abbrev pub get_frp_port : Option Settings → Text
get_frp_port = read (codes "0") (λ s. s.frp_port)

abbrev pub get_reconnec_times : Option Settings → ℕ
get_reconnec_times = read 50 (λ s. s.reconnec_times)

abbrev pub get_server_user_name : Option Settings → Text
get_server_user_name = read [] (λ s. s.username)

abbrev pub get_server_user_password : Option Settings → Text
get_server_user_password = read [] (λ s. s.password)

abbrev pub get_post_url : Option Settings → List Text
get_post_url = read [] (λ s. s.post_url)

-- fmt.Sprintf("%d", AppID)
abbrev pub get_app_id_str : Option Settings → Text
get_app_id_str s = decimal (get_app_id s)
