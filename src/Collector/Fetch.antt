-- ===== src/Collector/Fetch.antt =====
-- src/cpp/collector/main.cpp: struct Live, `json_str` and `fetch_top_lives`. libcurl and rapidjson
-- are parameters: the answer to the i-th request, the URL escape, and the parser.
pub mod Laws
use stream_monitor.Prelude.{
  ℕ, zero, suc, ◌+◌, ◌-◌, ◌/◌, ◌%◌, min, Bool, true, false, not, ◌||◌, List, [], ◌∷◌, ◌++◌, Option,
  none, some, ltb, leb, ◌==◌, if◌then◌else◌, length, take,
}
use stream_monitor.Prelude.Int.{ℤ, pos, negsuc}
use stream_monitor.Framing.{Bytes}
use stream_monitor.Json.{
  Json, int, obj, arr, Items, nil, cons, Members, codes, c_str, find_member, json_str,
}

pub record Live : Type 0 where
  pub channel_id : Bytes
  pub channel_name : Bytes
  pub category : Bytes
  pub title : Bytes
  pub viewers : ℤ

-- Why there is no list of lives: what is thrown, with `length_error` for `resize` to a negative size;
-- and `undefined_content`, which no code throws: `doc["content"]` where the document has no such
-- object, after which a release build has no defined behaviour and the model goes no further.
pub data FetchError : Type 0 where
  transport bad_json api_error undefined_content length_error out_of_fuel : FetchError

pub data Fetched {ℓ} (A : Type ℓ) : Type ℓ where
  ok : A → Fetched A
  err : FetchError → Fetched A

-- `Http::get` for each request of a poll: HTTP status and body, or `none` where curl fails.
pub record Web : Type 0 where
  pub get : ℕ → Bytes → Option (ℤ × Bytes)
  pub escape : Bytes → Bytes
  pub parse : Bytes → Option Json

abbrev pub page_size : ℕ
page_size = 20

abbrev api_host : Bytes
api_host = codes "https://openapi.chzzk.naver.com"

-- std::to_string, on fuel that the number itself bounds.
decimal : ℕ → ℕ → Bytes
decimal zero n = []
decimal (suc fuel) n =
    let front = decimal fuel (n / 10) in
    if ltb n 10 then (b'0' + n) ∷ [] else front ++ (b'0' + n % 10) ∷ []

unfoldable pub to_string : ℕ → Bytes
unfolding decimal
to_string n = decimal (suc n) n

abbrev cursor_part : Web → Bytes → Bytes
cursor_part web [] = []
cursor_part web (c ∷ cs) = codes "&next=" ++ web.escape (c_str (c ∷ cs))

pub lives_url : Web → ℕ → Bytes → Bytes
unfolding to_string
lives_url web size next =
    api_host ++ codes "/open/v1/lives?size=" ++ to_string size ++ cursor_part web next

abbrev int_or_zero : Option Json → ℤ
int_or_zero (some (int n)) = n
int_or_zero _ = pos 0

unfoldable pub read_live : Members → Live
read_live ms = record {
  channel_id = json_str ms (codes "channelId");
  channel_name = json_str ms (codes "channelName");
  category = json_str ms (codes "liveCategoryValue");
  title = json_str ms (codes "liveTitle");
  viewers = int_or_zero (find_member (codes "concurrentUserCount") ms);
}

-- `if (!l.channel_id.empty()) { lives.push_back(l); ++got; }`
abbrev pub push_live : Live → Bytes → List Live → List Live
push_live l [] ls = ls
push_live l (c ∷ cs) ls = l ∷ ls

-- The loop over `data`: what is no object is skipped.
pub read_lives : Items → List Live
read_lives nil = []
read_lives (cons (obj ms) xs) = push_live (read_live ms) (read_live ms).channel_id (read_lives xs)
read_lives (cons _ xs) = read_lives xs

-- What one answer brings: its lives, `got` of them, and the next cursor.
pub record Page : Type 0 where
  pub lives : List Live
  pub next : Bytes

abbrev pub data_lives : Option Json → List Live
data_lives (some (arr xs)) = read_lives xs
data_lives _ = []

abbrev page_next : Option Json → Bytes
page_next (some (obj ms)) = json_str ms (codes "next")
page_next _ = []

abbrev pub read_content : Option Json → Fetched Page
read_content (some (obj ms)) = ok (record {
  lives = data_lives (find_member (codes "data") ms);
  next = page_next (find_member (codes "page") ms);
})
read_content _ = err undefined_content

-- `status != 200 || … code->value.GetInt() != 200`
abbrev is_200 : Option Json → Bool
is_200 (some (int (pos n))) = n == 200
is_200 _ = false

abbrev status_200 : ℤ → Bool
status_200 (pos n) = n == 200
status_200 (negsuc n) = false

abbrev pub read_doc : ℤ → Option Json → Fetched Page
read_doc status (some (obj ms)) =
    if not (status_200 status) || not (is_200 (find_member (codes "code") ms))
    then err api_error
    else read_content (find_member (codes "content") ms)
read_doc status _ = err bad_json

pub read_answer : Web → Option (ℤ × Bytes) → Fetched Page
unfolding read_lives read_live
read_answer web none = err transport
read_answer web (some (status, body)) = read_doc status (web.parse (c_str body))

abbrev pub is_empty {ℓ} : {A : Type ℓ} → List A → Bool
is_empty [] = true
is_empty (x ∷ xs) = false

-- The end of one round: `rest` is the next round.
abbrev pub after_answer :
    List Live → (Page → Fetched (List Live)) → Fetched Page → Fetched (List Live)
after_answer lives rest (err e) = err e
after_answer lives rest (ok p) = elim (is_empty p.lives || is_empty p.next) [
  | true ↦ ok (lives ++ p.lives)
  | false ↦ rest p
]

-- The loop, on fuel, at its i-th request.
pub fetch_loop : ℕ → Web → ℕ → ℕ → List Live → Bytes → Fetched (List Live)
unfolding read_answer lives_url
fetch_loop zero web n i lives next = err out_of_fuel
fetch_loop (suc fuel) web n i lives next = elim (ltb (length lives) n) [
  | false ↦ ok lives
  | true ↦
      after_answer lives (λ p. fetch_loop fuel web n (suc i) (lives ++ p.lives) p.next)
        (read_answer web (web.get i (lives_url web (min page_size (n - length lives)) next)))
]

abbrev pub resized : ℕ → Fetched (List Live) → Fetched (List Live)
resized n (ok ls) = ok (take n ls)
resized n (err e) = err e

-- `top_n` is SM_TOP_N; with a negative one `lives.resize(top_n)` throws.
pub fetch_top_lives : Web → ℤ → Fetched (List Live)
fetch_top_lives web (pos n) = resized n (fetch_loop (suc n) web n 0 [] [])
fetch_top_lives web (negsuc n) = err length_error
