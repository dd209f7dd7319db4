-- ===== src/Push/Request/Reply.antt =====
-- The reply to one request line.
use stream_monitor.Prelude.{
  ℕ, Bool, true, false, ◌≡◌, refl, List, [], ◌∷◌, ◌++◌, Option, none, some, if◌then◌else◌,
}
use stream_monitor.Prelude.Int.{pos}
use stream_monitor.Framing.{Bytes}
use stream_monitor.Json.{Json, int, obj, Members, c_str, codes, json_str, bytes_eq}
use stream_monitor.Push.Conn.{Conn, append_json, send_json, send_error}
use stream_monitor.Push.Request.{
  Env, reply, handle_hello, handle_samples, handle_stats, handle_object, handle_doc, handle_line,
  channel_arg, request_id, type_member,
}

-- `d` is `c` with one document more in its output, and perhaps greeted.
abbrev pub Replies : (Json → Bytes) → Conn → Conn → Type 0
Replies write c d =
    (j : Json) × (d ≡ record (append_json write c j) { hello = d.hello })
    × (c.hello ≡ true → d.hello ≡ true)

-- What is said of a call that returns.
data OnReturn (P : Conn → Type 0) : Option Conn → Type 0 where
  thrown : OnReturn P none
  returned : {d : Conn} → P d → OnReturn P (some d)

OnReturn-some : {P : Conn → Type 0} {d : Conn} → OnReturn P (some d) → P d
OnReturn-some (returned h) = h

reply-Replies :
    (write : Json → Bytes) (c : Conn) (head : List (Bytes × Json))
    (rows : Option (List (Bytes × Json))) (id : Option Bytes)
    → OnReturn (Replies write c) (reply write c head rows id)
unfolding reply send_json
reply-Replies write c head none id = thrown
reply-Replies write c head (some rows) id = returned (_, refl, λ h. h)

OnReturn-if :
    {P : Conn → Type 0} (b : Bool) {x y : Option Conn}
    → OnReturn P x
    → OnReturn P y
    → OnReturn P (if b then x else y)
OnReturn-if true hx hy = hx
OnReturn-if false hx hy = hy

send_error-Replies :
    (write : Json → Bytes) (c : Conn) (id : Option Bytes) (code message : Bytes)
    → Replies write c (send_error write c id code message)
unfolding send_error
send_error-Replies write c id code message = (_, refl, λ h. h)

samples-Replies :
    (env : Env) (now : ℕ) (c : Conn) (id : Option Bytes) (ms : Members) (ch : Option Bytes)
    → channel_arg ms ≡ ch
    → OnReturn (Replies env.write c) (handle_samples env now c id ms)
unfolding handle_samples
samples-Replies env now c id ms none e =
    rw (e, handle_samples) (returned (send_error-Replies env.write c id _ _))
samples-Replies env now c id ms (some ch) e =
    rw (e, handle_samples)
      (OnReturn-if _ (returned (send_error-Replies env.write c id _ _))
        (reply-Replies env.write c _ (env.queries.samples ch _ _) id))

object-Replies :
    (env : Env) (now clients : ℕ) (c : Conn) (ms : Members)
    → OnReturn (Replies env.write c) (handle_object env now clients c ms)
unfolding handle_object handle_hello handle_stats send_json
object-Replies env now clients c ms =
    let type = json_str ms (codes "type") in
    let id = request_id ms in
    let queried = λ (t : Bytes) (rows : Option (List (Bytes × Json))).
      reply-Replies env.write c (type_member t) rows id in
    OnReturn-if (bytes_eq type (codes "hello")) (returned (_, refl, λ _. refl)) (
      OnReturn-if (bytes_eq type (codes "channels"))
        (queried (codes "channels") (env.queries.channels now))
        (OnReturn-if (bytes_eq type (codes "samples"))
          (samples-Replies env now c id ms (channel_arg ms) refl)
          (OnReturn-if (bytes_eq type (codes "stats"))
            (reply-Replies env.write c
              (type_member (codes "stats") ++ (codes "clients", int (pos clients)) ∷ [])
              env.queries.stats id)
            (returned
              (send_error-Replies env.write c id (codes "unknown_type") (codes "type=" ++ type))))))

doc-Replies :
    (env : Env) (now clients : ℕ) (c : Conn) (doc : Option Json)
    → OnReturn (Replies env.write c) (handle_doc env now clients c doc)
doc-Replies env now clients c (some (obj ms)) = object-Replies env now clients c ms
doc-Replies env now clients c _ = returned (send_error-Replies env.write c none _ _)

-- One request line that is handled puts one document and its newline behind the output, keeps the
-- greeting once it was made, and changes nothing else of the connection.
pub handle_line-Replies :
    (env : Env) (now clients : ℕ) (c : Conn) (line : Bytes) {d : Conn}
    → handle_line env now clients c line ≡ some d
    → Replies env.write c d
unfolding handle_line
handle_line-Replies env now clients c line e =
    OnReturn-some (rw e at (doc-Replies env now clients c (env.parse (c_str line))))
