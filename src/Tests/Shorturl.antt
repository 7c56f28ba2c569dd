-- ===== src/Tests/Shorturl.antt =====
-- shorturl/shorturl.go: a link whose digest's string and first random string are in use.
use gensokyo_discord.Prelude.{
  ℕ, true, none, some, ◌≡◌, refl, Text, codes, Outcome, ok, err, panicked, eqb, if◌then◌else◌,
  arith, Bool-cases, inl, inr,
}
use gensokyo_discord.Http.{Fetch}
use gensokyo_discord.Bolt.{Bolt, accepts}
use gensokyo_discord.Bolt.Sorted.{sorted_bolt, SortedBucket, sorted_run}
use gensokyo_discord.Bolt.Writes.{put_checked}
use gensokyo_discord.Shorturl.{
  store_url, generate_short_url, get_long_url_from_db, redirect_from_short_url, redirect_target,
}
use gensokyo_discord.Shorturl.Laws.{generate_short_url_lem}

abbrev taken : Text
taken = codes "aaaaaa"

abbrev long : Text
long = codes "example.org/a"

abbrev random : ℕ → Text
random i = if eqb i 0 then taken else codes "bbbbbb"

abbrev unplugged : Fetch
unplugged url = none

abbrev bucket_of : Outcome SortedBucket → SortedBucket
bucket_of (ok b) = b
bucket_of (err e) = Bolt.empty sorted_bolt
bucket_of panicked = Bolt.empty sorted_bolt

abbrev used : SortedBucket
used =
    bucket_of (store_url sorted_bolt taken (codes "https://example.com") (Bolt.empty sorted_bolt))

short_run : Unit {0}
unfolding sorted_run put_checked store_url accepts generate_short_url get_long_url_from_db
    redirect_from_short_url redirect_target
short_run = tt

second_is_free : Bolt.get sorted_bolt used (random 1) ≡ none
unfolding short_run
second_is_free = refl

taken-accepts : accepts taken long ≡ true
unfolding short_run
taken-accepts = refl

random-accepts : (i : ℕ) → accepts (random i) long ≡ true
unfolding short_run
random-accepts i = elim (Bool-cases (eqb i 0)) [
  | inl first ↦ rw first refl
  | inr later ↦ rw later refl
]

redirect_adds_scheme : redirect_target long ≡ codes "https://example.org/a"
unfolding short_run
redirect_adds_scheme = refl

generate_short_url_lem_example :
    (short : Text) × (b' : SortedBucket) × (generate_short_url sorted_bolt 2 random
        (λ url. taken)
        long
        used
      ≡ some (short, b'))
    × (Bolt.get sorted_bolt used short ≡ none)
    × (redirect_from_short_url sorted_bolt none unplugged short b' ≡ ok (301, redirect_target long))
    × ((other target : Text)
        → get_long_url_from_db sorted_bolt none unplugged other used ≡ ok target
        → get_long_url_from_db sorted_bolt none unplugged other b' ≡ ok target)
generate_short_url_lem_example =
    generate_short_url_lem sorted_bolt 2 random (λ url. taken) long 1 used none unplugged refl
      (omega arith) second_is_free taken-accepts random-accepts
