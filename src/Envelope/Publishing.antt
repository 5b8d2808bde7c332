-- ===== src/Envelope/Publishing.antt =====
-- internal/domain/envelope.go: `MayPublish` and a rule that does not go by classes.
use text.Mathlib.Text.{starts_with}
use my_pol_go_backend.Prelude.{
  String, Bool, true, false, not, ◌&&◌, ◌||◌, List, [], ◌∷◌, ◌==◌, ◌≡◌, refl, sym, subst, ap, ◌∙◌,
  arith, if◌then◌else◌, Bool-cases, String-cases, inl, inr,
}
use my_pol_go_backend.Permission.{Permission, can_draw}
use my_pol_go_backend.Envelope.{
  EventClass, ephemeral, reliable, signaling, durable, classify_event, may_publish,
  may_publish_class, ephemeral_events, signaling_events,
}
use my_pol_go_backend.Prelude.Lists.{elem}

-- Events that change a canvas: ink, blocks, history and selections.
abbrev pub changes_canvas : String → Bool
changes_canvas event =
    starts_with event "ink."
    || starts_with event "block."
    || starts_with event "history."
    || starts_with event "selection."

abbrev live_change : String → Bool
live_change event =
    event == "ink.started"
    || event == "ink.points"
    || event == "block.transform.preview"
    || event == "selection.transform.preview"

abbrev pub is_durable : EventClass → Bool
is_durable durable = true
is_durable ephemeral = false
is_durable reliable = false
is_durable signaling = false

abbrev same : Bool → Bool → Bool
same true b = b
same false b = not b

unfoldable pub all : (String → Bool) → List String → Bool
all p [] = true
all p (x ∷ xs) = p x && all p xs

-- What holds of each event of a list holds of an event in it.
pub all-elem :
    (p : String → Bool) (x : String) (xs : List String)
    → all p xs ≡ true
    → elem x xs ≡ true
    → p x ≡ true
unfolding all elem
all-elem p x [] h e = ground arith
all-elem p x (y ∷ ys) h e = elim (String-cases x y) [
  | inl q ↦ subst (λ z. p z ≡ true) (sym q) (ground arith)
  | inr q ↦ ground (arith, all-elem p x ys)
]

ephemeral_table : all (λ e. same (live_change e) (changes_canvas e)) ephemeral_events ≡ true
unfolding all
ephemeral_table = refl

signaling_table : all (λ e. not (changes_canvas e)) signaling_events ≡ true
unfolding all
signaling_table = refl

same_sound : (a b : Bool) → same a b ≡ true → a ≡ b
same_sound a b h = ground arith

-- What the first two tests of `ClassifyEvent` let through.
first_test :
    (a b c d e : Bool)
    → (if a
        then ephemeral
        else if b
        then signaling
        else if c
        then reliable
        else if d
        then durable
        else if e
        then durable
        else reliable)
      ≡ ephemeral
    → a ≡ true
first_test a b c d e h = ground arith

second_test :
    (a b c d e : Bool)
    → (if a
        then ephemeral
        else if b
        then signaling
        else if c
        then reliable
        else if d
        then durable
        else if e
        then durable
        else reliable)
      ≡ signaling
    → b ≡ true
second_test a b c d e h = ground arith

live_change-changes_canvas :
    (event : String) → classify_event event ≡ ephemeral → live_change event ≡ changes_canvas event
unfolding classify_event
live_change-changes_canvas event h = same_sound _ _ (
    all-elem (λ e. same (live_change e) (changes_canvas e)) event ephemeral_events ephemeral_table
      (first_test _ _ _ _ _ h))

pub not-true : (b : Bool) → not b ≡ true → b ≡ false
not-true b h = ground arith

signaling-changes_canvas :
    (event : String) → classify_event event ≡ signaling → changes_canvas event ≡ false
unfolding classify_event
signaling-changes_canvas event h = not-true _ (
    all-elem (λ e. not (changes_canvas e)) event signaling_events signaling_table
      (second_test _ _ _ _ _ h))

if_or : (a b : Bool) → (if a then b else true) ≡ (b || not a)
if_or true true = refl
if_or true false = refl
if_or false true = refl
if_or false false = refl

or_true : (b : Bool) → true ≡ (b || true)
or_true true = refl
or_true false = refl

publish_class :
    (p : Permission) (event : String) (c : EventClass)
    → classify_event event ≡ c
    → may_publish_class c p event
      ≡ (not (is_durable c) && (can_draw p || not (changes_canvas event)))
unfolding may_publish_class
publish_class p event durable h = refl
publish_class p event ephemeral h =
    if_or (live_change event) (can_draw p)
    ∙ ap (λ z. can_draw p || not z) (live_change-changes_canvas event h)
publish_class p event signaling h =
    or_true (can_draw p) ∙ ap (λ z. can_draw p || not z) (sym (signaling-changes_canvas event h))
publish_class p event reliable h = if_or (changes_canvas event) (can_draw p)

pub may_publish_exact :
    (p : Permission) (event : String)
    → may_publish p event ≡ (
        not (event == "server.draining")
        && (not (is_durable (classify_event event)) && (can_draw p || not (changes_canvas event))))
unfolding may_publish
may_publish_exact p event = elim (Bool-cases (event == "server.draining")) [
  | inl e ↦ rw e
  | inr e ↦ rw e (publish_class p event (classify_event event) refl)
]
