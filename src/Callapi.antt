-- ===== src/Callapi.antt =====
-- callapi/callapi.go: the actions that a OneBot client asks for, how their parameters are read, and the
-- register of their handlers.
use gensokyo_discord.Prelude.{
  Bool, Option, none, some, List, [], ◌∷◌, Text, ◌==◌, codes, Outcome, ok, err, panicked,
  bad_response, ◌>>=◌, if◌then◌else◌,
}

-- A decoded JSON value. `whole` prints a number with the verb %.0f.
mutual
  pub data Value : Type 0 where
    null : Value
    bool : Bool → Value
    number : (whole : Text) → Value
    string : Text → Value
    array : Values → Value
    object : Members → Value

  pub data Values : Type 0 where
    nil : Values
    cons : Value → Values → Values

  pub data Members : Type 0 where
    end : Members
    member : Text → Value → Members → Members

-- A read of an object, null where the key is missing; of two members with one key the decoder keeps
-- the later.
unfoldable pub read_member : Text → Members → Option Value
read_member key end = none
read_member key (member k v rest) =
    let later = read_member key rest in
    elim later as (λ _. Option Value) [ some w ↦ some w | none ↦ if k == key then some v else none ]

-- `ParamsContent` as far as the handlers of this development read it. `none` is the nil of an interface:
-- the handlers are also called by code that leaves the field out.
pub record ParamsContent : Type 0 where
  pub channel_id : Text
  pub guild_id : Text
  pub group_id : Option Text
  pub user_id : Option Text
  pub message : Value

-- `echo` is the Echo of the message where that is a string.
pub record ActionMessage : Type 0 where
  pub action : Text
  pub params : ParamsContent
  pub echo : Option Text

-- `GroupID` and `UserID` of `ParamsContent.UnmarshalJSON`.
unfoldable pub read_id : Option Value → Outcome Text
read_id none = ok []
read_id (some null) = ok []
read_id (some (number whole)) = ok whole
read_id (some (string s)) = ok s
read_id (some (bool b)) = err bad_response
read_id (some (array vs)) = err bad_response
read_id (some (object ms)) = err bad_response

-- a field of type string: a missing field and null leave it empty, and another kind is an error
unfoldable pub read_string : Option Value → Outcome Text
read_string none = ok []
read_string (some null) = ok []
read_string (some (string s)) = ok s
read_string (some (bool b)) = err bad_response
read_string (some (number whole)) = err bad_response
read_string (some (array vs)) = err bad_response
read_string (some (object ms)) = err bad_response

abbrev or_null : Option Value → Value
or_null none = null
or_null (some v) = v

-- the fields of `ParamsContent` above, from a decoded object
unfoldable pub read_params : Members → Outcome ParamsContent
unfolding read_member read_id read_string
read_params ms = do
  channel ← read_string (read_member (codes "channel_id") ms)
  guild ← read_string (read_member (codes "guild_id") ms)
  group ← read_id (read_member (codes "group_id") ms)
  user ← read_id (read_member (codes "user_id") ms)
  ok (record {
    channel_id = channel;
    guild_id = guild;
    group_id = some group;
    user_id = some user;
    message = or_null (read_member (codes "message") ms);
  })

-- The register `handlers`: a later registration of an action replaces an earlier one.
module _ {H : Type 0} where
  unfoldable pub register_handler : Text → H → List (Text × H) → List (Text × H)
  register_handler action handler handlers = (action, handler) ∷ handlers

  unfoldable pub find_handler : Text → List (Text × H) → Option H
  find_handler action [] = none
  find_handler action ((a, h) ∷ rest) = if a == action then some h else find_handler action rest

-- `CallAPIFromDict`: the answer of the handler; the empty text for an unknown action and on an error.
abbrev pub Handler : Type 0 → Type 0
Handler W = ActionMessage → W → Outcome Text × W

unfoldable pub call_api_from_dict :
    {W : Type 0} → List (Text × Handler W) → ActionMessage → W → Outcome Text × W
unfolding find_handler
call_api_from_dict {W} handlers m w =
    elim (find_handler m.action handlers) as (λ _. Outcome Text × W) [
      | none ↦ (ok [], w)
      | some handler ↦
          (let result = handler m w in
            elim result.0 as (λ _. Outcome Text × W) [
              | ok answer ↦ (ok answer, result.1)
              | err e ↦ (ok [], result.1)
              | panicked ↦ (panicked, result.1)
            ])
    ]
