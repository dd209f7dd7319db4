-- ===== src/Push/Request/Answer.antt =====
-- The document that answers a request line, apart from the connection.
use mathlib.Core.Option.{some-injective, none-ne-some}
use stream_monitor.Prelude.{
  ℕ, ◌≡◌, refl, sym, ap, ◌∙◌, inl, inr, Bool, true, false, ◌||◌, List, [], ◌∷◌, ◌++◌, map,
  append-nil, append_assoc, Option, none, some, if◌then◌else◌, Option-cases,
}
use stream_monitor.Prelude.Int.{pos, ltb_ℤ, ◌-ℤ◌}
use stream_monitor.Framing.{Bytes, on_line, frame}
use stream_monitor.Framing.Loop.{run_lines}
use stream_monitor.Json.{Json, int, obj, object, Members, c_str, codes, utf8, json_str, bytes_eq}
use stream_monitor.Push.Conn.{
  Conn, proto_v, max_range, id_member, error_body, send_json, send_error,
}
use stream_monitor.Push.Request.{
  Env, reply, type_member, request_id, channel_arg, window_from, window_to, handle_hello,
  handle_samples, handle_stats, handle_object, handle_doc, handle_line,
}

abbrev pub document : Option Bytes → List (Bytes × Json) → Json
document id body = object (body ++ id_member id)

abbrev pub problem : Option Bytes → Bytes → Bytes → Option Json
problem id code message = some (document id (error_body code message))

-- `none` where the query throws.
abbrev pub found : Option Bytes → List (Bytes × Json) → Option (List (Bytes × Json)) → Option Json
found id head none = none
found id head (some rows) = some (document id (head ++ rows))

abbrev pub samples_answer : Env → ℕ → Option Bytes → Members → Option Bytes → Option Json
samples_answer env now id ms none = problem id (codes "bad_arg") (utf8 "channel_id 필요")
samples_answer env now id ms (some ch) =
    let from = window_from now ms in
    let to = window_to now ms in
    if ltb_ℤ to from || ltb_ℤ (pos max_range) (to -ℤ from)
    then problem id (codes "bad_arg") (utf8 "구간은 0~30일")
    else found id (type_member (codes "samples")) (env.queries.samples ch from to)

unfoldable pub object_answer : Env → ℕ → ℕ → Members → Option Json
object_answer env now clients ms =
    let type = json_str ms (codes "type") in
    let id = request_id ms in
    if bytes_eq type (codes "hello")
    then some (
        document id (
          type_member (codes "hello")
          ++ ((codes "v", int (pos proto_v))
              ∷ (codes "now", int (pos now))
              ∷ (codes "retain_days", int env.retain_days)
              ∷ [])))
    else if bytes_eq type (codes "channels")
    then found id (type_member (codes "channels")) (env.queries.channels now)
    else if bytes_eq type (codes "samples")
    then samples_answer env now id ms (channel_arg ms)
    else if bytes_eq type (codes "stats")
    then found id (type_member (codes "stats") ++ (codes "clients", int (pos clients)) ∷ [])
        env.queries.stats
    else problem id (codes "unknown_type") (codes "type=" ++ type)

abbrev pub doc_answer : Env → ℕ → ℕ → Option Json → Option Json
doc_answer env now clients (some (obj ms)) = object_answer env now clients ms
doc_answer env now clients _ = problem none (codes "bad_json") (utf8 "JSON 객체가 아님")

abbrev pub answer : Env → ℕ → ℕ → Bytes → Option Json
answer env now clients line = doc_answer env now clients (env.parse (c_str line))

-- The answers to some lines; an empty line has none.
abbrev pub with_answer : Option Json → Option (List Json) → Option (List Json)
with_answer none js = none
with_answer (some j) none = none
with_answer (some j) (some js) = some (j ∷ js)

unfoldable pub answers : Env → ℕ → ℕ → List Bytes → Option (List Json)
answers env now clients [] = some []
answers env now clients ([] ∷ ls) = answers env now clients ls
answers env now clients ((b ∷ l) ∷ ls) =
    with_answer (answer env now clients (b ∷ l)) (answers env now clients ls)

-- The handler throws where there is no answer, and otherwise puts the answer behind the output.
data Agrees (write : Json → Bytes) (c : Conn) : Option Conn → Option Json → Type 0 where
  throws : Agrees write c none none
  replies :
      {d : Conn} {j : Json}
      → d.out ≡ c.out ++ (write j ++ b'\n' ∷ [])
      → Agrees write c (some d) (some j)

Agrees-some :
    (write : Json → Bytes) (c : Conn) {d : Conn} {o : Option Json}
    → Agrees write c (some d) o
    → (j : Json) × (o ≡ some j) × (d.out ≡ c.out ++ (write j ++ b'\n' ∷ []))
Agrees-some write c (replies p) = (_, refl, p)

Agrees-if :
    (write : Json → Bytes) (c : Conn) (b : Bool) {x y : Option Conn} {j k : Option Json}
    → Agrees write c x j
    → Agrees write c y k
    → Agrees write c (if b then x else y) (if b then j else k)
Agrees-if write c true h k = h
Agrees-if write c false h k = k

reply-Agrees :
    (write : Json → Bytes) (c : Conn) (head : List (Bytes × Json))
    (rows : Option (List (Bytes × Json))) (id : Option Bytes)
    → Agrees write c (reply write c head rows id) (found id head rows)
unfolding reply send_json
reply-Agrees write c head none id = throws
reply-Agrees write c head (some rows) id = replies refl

send_error-Agrees :
    (write : Json → Bytes) (c : Conn) (id : Option Bytes) (code message : Bytes)
    → Agrees write c (some (send_error write c id code message)) (problem id code message)
unfolding send_error send_json
send_error-Agrees write c id code message = replies refl

samples-Agrees :
    (env : Env) (now : ℕ) (c : Conn) (id : Option Bytes) (ms : Members) (ch : Option Bytes)
    → channel_arg ms ≡ ch
    → Agrees env.write c (handle_samples env now c id ms) (samples_answer env now id ms ch)
unfolding handle_samples
samples-Agrees env now c id ms none e =
    rw (e, handle_samples)
      (send_error-Agrees env.write c id (codes "bad_arg") (utf8 "channel_id 필요"))
samples-Agrees env now c id ms (some ch) e =
    let from = window_from now ms in
    let to = window_to now ms in
    rw (e, handle_samples)
      (Agrees-if env.write c (ltb_ℤ to from || ltb_ℤ (pos max_range) (to -ℤ from))
        (send_error-Agrees env.write c id (codes "bad_arg") (utf8 "구간은 0~30일"))
        (reply-Agrees env.write c (type_member (codes "samples")) (env.queries.samples ch from to)
          id))

object-Agrees :
    (env : Env) (now clients : ℕ) (c : Conn) (ms : Members)
    → Agrees env.write c (handle_object env now clients c ms) (object_answer env now clients ms)
unfolding handle_object handle_hello handle_stats send_json object_answer
object-Agrees env now clients c ms =
    let w = env.write in
    let id = request_id ms in
    let type = json_str ms (codes "type") in
    Agrees-if w c (bytes_eq type (codes "hello")) (replies refl) (
      Agrees-if w c (bytes_eq type (codes "channels"))
        (reply-Agrees w c (type_member (codes "channels")) (env.queries.channels now) id)
        (Agrees-if w c (bytes_eq type (codes "samples"))
          (samples-Agrees env now c id ms (channel_arg ms) refl)
          (Agrees-if w c (bytes_eq type (codes "stats"))
            (reply-Agrees w c
              (type_member (codes "stats") ++ (codes "clients", int (pos clients)) ∷ [])
              env.queries.stats id)
            (send_error-Agrees w c id (codes "unknown_type") (codes "type=" ++ type)))))

doc-Agrees :
    (env : Env) (now clients : ℕ) (c : Conn) (doc : Option Json)
    → Agrees env.write c (handle_doc env now clients c doc) (doc_answer env now clients doc)
doc-Agrees env now clients c (some (obj ms)) = object-Agrees env now clients c ms
doc-Agrees env now clients c _ =
    send_error-Agrees env.write c none (codes "bad_json") (utf8 "JSON 객체가 아님")

line-Agrees :
    (env : Env) (now clients : ℕ) (c : Conn) (line : Bytes)
    → Agrees env.write c (handle_line env now clients c line) (answer env now clients line)
unfolding handle_line
line-Agrees env now clients c line = doc-Agrees env now clients c (env.parse (c_str line))

pub line-answer :
    (env : Env) (now clients : ℕ) (c : Conn) (line : Bytes) {d : Conn}
    → handle_line env now clients c line ≡ some d
    → (j : Json) × (answer env now clients line ≡ some j)
      × (d.out ≡ c.out ++ (env.write j ++ b'\n' ∷ []))
line-answer env now clients c line e =
    Agrees-some env.write c (rw e at (line-Agrees env now clients c line))

pub lines-answers :
    (env : Env) (now clients : ℕ) (ls : List Bytes) (c : Conn) {d : Conn}
    → run_lines (handle_line env now clients) ls c ≡ some d
    → (js : List Json) × (answers env now clients ls ≡ some js)
      × (d.out ≡ c.out ++ frame (map env.write js))
unfolding on_line frame answers
lines-answers env now clients [] c e =
    ([], refl, ap (λ x. x.out) (sym (some-injective _ _ e)) ∙ sym (append-nil c.out))
lines-answers env now clients ([] ∷ ls) c e = lines-answers env now clients ls c e
lines-answers env now clients ((b ∷ l) ∷ ls) c e =
    elim (Option-cases (handle_line env now clients c (b ∷ l))) [
      | inl n ↦ absurd (none-ne-some _ (rw (n, run_lines) at e))
      | inr (c', n) ↦
          let (j, a, p) = line-answer env now clients c (b ∷ l) n in
          let (js, k, q) = lines-answers env now clients ls c' (rw (n, run_lines) at e) in
          (
            j ∷ js,
            rw (a, k) refl,
            q ∙ ap (λ x. x ++ frame (map env.write js)) p ∙ simp append_assoc,
          )
    ]
