-- ===== src/Client/Dispatch/OneShot.antt =====
-- Power and inventory messages act once and on nothing else (client/client.go).
use thesis_agent.Base.{
  ◌≡◌, refl, ap, Bool, true, false, none, some, [], ◌∷◌, arith, Text, codes, bytes_eq, Unicode,
  UnicodeLaws, trim_left, trim_space, to_lower, replace_char, Option-cases, inl, inr,
}
use thesis_agent.Client.Message.{
  ServerCommand, normalize_command, parse_stream, no_command, is_one_shot,
}
use thesis_agent.Client.Dispatch.{
  Request, Wire, shut_down, submit_apps, parse_power, parse_apps, handle_virus_scan, on_message,
  on_stream, handle_frame,
}

module _ (u : Unicode) (laws : UnicodeLaws u) where
  normalize-power : normalize_command u (codes "power") ≡ codes "power"
  unfolding normalize_command trim_space trim_left to_lower replace_char
  normalize-power =
      let p = laws.letter_plain b'p' (omega arith) (omega arith) in
      let o = laws.letter_plain b'o' (omega arith) (omega arith) in
      let w = laws.letter_plain b'w' (omega arith) (omega arith) in
      let e = laws.letter_plain b'e' (omega arith) (omega arith) in
      let r = laws.letter_plain b'r' (omega arith) (omega arith) in
      simp (p.0, p.1, o.0, w.0, e.0, r.0, r.1)

  normalize-installed_apps : normalize_command u (codes "installed_apps") ≡ codes "installed_apps"
  unfolding normalize_command trim_space trim_left to_lower replace_char
  normalize-installed_apps =
      let i = laws.letter_plain b'i' (omega arith) (omega arith) in
      let n = laws.letter_plain b'n' (omega arith) (omega arith) in
      let s = laws.letter_plain b's' (omega arith) (omega arith) in
      let t = laws.letter_plain b't' (omega arith) (omega arith) in
      let a = laws.letter_plain b'a' (omega arith) (omega arith) in
      let l = laws.letter_plain b'l' (omega arith) (omega arith) in
      let e = laws.letter_plain b'e' (omega arith) (omega arith) in
      let d = laws.letter_plain b'd' (omega arith) (omega arith) in
      let p = laws.letter_plain b'p' (omega arith) (omega arith) in
      simp (i.0, i.1, n.0, s.0, s.1, t.0, a.0, l.0, e.0, d.0, p.0, laws.lower_underscore)

  parse_stream-one_shot :
      (m : ServerCommand)
      → is_one_shot (normalize_command u m.kind) ≡ true
      → parse_stream u (some m) ≡ no_command
  unfolding parse_stream
  parse_stream-one_shot m h = rw h

  module _ (w : Wire) where
    open w use {Frame, is_text, valid_json, as_server, as_envelope, as_power, as_apps}

    -- The decoders read one type from a frame.
    pub record ReadsType (frame : Frame) (kind : Text) : Type 0 where
      pub server_type : (m : ServerCommand) → as_server frame ≡ some m → m.kind ≡ kind
      pub envelope_type : (t : Text) → as_envelope frame ≡ some t → t ≡ kind
      pub apps_type : (m : Request) → as_apps frame ≡ some m → m.kind ≡ kind

    quiet_stream :
        (frame : Frame) (kind : Text)
        → ReadsType frame kind
        → is_one_shot (normalize_command u kind) ≡ true
        → parse_stream u (as_server frame) ≡ no_command
    quiet_stream frame kind reads h = elim (Option-cases (as_server frame)) [
      | inl bad ↦ rw bad (unfold parse_stream in refl)
      | inr (m, found) ↦ rw found (parse_stream-one_shot m (rw (reads.server_type m found) h))
    ]

    no_scan :
        (frame : Frame) (kind : Text)
        → ReadsType frame kind
        → bytes_eq (normalize_command u kind) (codes "virus_scan") ≡ false
        → handle_virus_scan u w frame ≡ none
    unfolding handle_virus_scan
    no_scan frame kind reads h = elim (Option-cases (as_envelope frame)) [
      | inl bad ↦ rw bad refl
      | inr (t, found) ↦ rw (found, reads.envelope_type t found, h) refl
    ]

    no_apps :
        (frame : Frame) (kind : Text)
        → ReadsType frame kind
        → bytes_eq kind (codes "installed_apps") ≡ false
        → parse_apps u w frame ≡ none
    unfolding parse_apps
    no_apps frame kind reads h = elim (Option-cases (as_apps frame)) [
      | inl bad ↦ ground arith
      | inr (m, found) ↦
          ground (arith, ap (λ k. bytes_eq k (codes "installed_apps")) (reads.apps_type m found))
    ]

    -- A text frame with valid JSON that is a well-formed shutdown request, with its type read
    -- alike by every decoder, has one effect: the shutdown of its id. It reaches no scan, no
    -- download, no stream and no process.
    pub handle_frame-power :
        (configured providing : Bool) (frame : Frame) (request_id : Text)
        → ReadsType frame (codes "power")
        → is_text frame ≡ true
        → valid_json frame ≡ true
        → parse_power u w frame ≡ some request_id
        → handle_frame u w configured providing frame ≡ shut_down request_id ∷ []
    unfolding handle_frame on_message on_stream
    handle_frame-power configured providing frame request_id reads text json power = ground (
      arith,
      no_apps frame (codes "power") reads refl,
      no_scan frame (codes "power") reads (rw normalize-power refl),
      quiet_stream frame (codes "power") reads (rw normalize-power refl),
    )

    -- A text frame with valid JSON that is a well-formed inventory request, with its type read
    -- alike by every decoder, has one effect: its submission to the inventory worker.
    pub handle_frame-apps :
        (configured providing : Bool) (frame : Frame) (m : Request)
        → ReadsType frame (codes "installed_apps")
        → is_text frame ≡ true
        → valid_json frame ≡ true
        → parse_apps u w frame ≡ some m
        → handle_frame u w configured providing frame ≡ submit_apps m ∷ []
    unfolding handle_frame on_message on_stream
    handle_frame-apps configured providing frame m reads text json apps = ground (
      arith,
      quiet_stream frame (codes "installed_apps") reads (rw normalize-installed_apps refl),
    )
