-- ===== src/Message/Tests.antt =====
-- Runs of `MessageParser`, and its theorems at concrete messages.
use cli_chat.Base.{◌≡◌, refl, [], ◌∷◌, none, some, inl}
use cli_chat.Text.{split, codes, starts_with, equal, find_from, substr, substr_from}
use cli_chat.Message.{
  ChatMessage, broadcast, private, parse, serialize, escape_string, parse_user_list,
}
use cli_chat.Message.Reserved.{IsPlain}
use cli_chat.Message.RoundTrip.{parse-serialize}
use cli_chat.Message.Throws.{parse-none_iff}

abbrev greeting : ChatMessage
greeting = record {
  type = broadcast;
  sender = codes "bob";
  recipient = [];
  content = codes "hi: all";
  timestamp = 5;
}

bob-IsPlain : IsPlain (codes "bob")
unfolding equal starts_with
bob-IsPlain = record { no_colon = refl; no_word = refl; no_at = refl }

parse-serialize_example : parse 9 (serialize greeting) ≡ some (record greeting { timestamp = 9 })
parse-serialize_example = parse-serialize 9 greeting (refl, inl (refl, bob-IsPlain))

serialized : serialize greeting ≡ codes "bob: hi: all"
unfolding serialize
serialized = refl

private_parsed :
    parse 0 (codes "private:ann:a:b")
    ≡ some (record {
      type = private;
      sender = codes "ann";
      recipient = [];
      content = codes "a:b";
      timestamp = 0;
    })
unfolding parse starts_with find_from substr substr_from
private_parsed = refl

parse-none_iff_example : parse 0 (codes "bob:") ≡ none
parse-none_iff_example = (parse-none_iff 0 (codes "bob:")).1 (codes "bob", refl, bob-IsPlain)

escaped : escape_string (codes "a:b") ≡ codes "a\\:b"
unfolding escape_string
escaped = refl

user_list_parsed : parse_user_list (codes "users:ann,,bob,") ≡ some (codes "ann" ∷ codes "bob" ∷ [])
unfolding parse_user_list starts_with substr_from split
user_list_parsed = refl
