-- ===== src/Jobs/Recurring/Lookup.antt =====
-- What the configuration answers for a message type.
use cpkit.Base.{
  String, ◌≡◌, refl, ◌∙◌, Option, none, some, List, [], ◌∷◌, ◌++◌, arith, str_eq, eq_iff,
  if◌then◌else◌,
}
use cpkit.Base.Value.{get, put}
use cpkit.Jobs.Types.{RecurringMessage}
use cpkit.Jobs.Recurring.{
  Configs, map_from, values, recurring_message_map, dedupe_recurring_messages,
  configure_recurring_messages, default_recurring_messages, fail_zombie_jobs_message_type,
  fail_zombie_jobs_recurring_message,
}

abbrev or_else : Option RecurringMessage → Option RecurringMessage → Option RecurringMessage
or_else none b = b
or_else (some a) b = some a

-- The last message of a type, which is the one that counts.
abbrev pub latest : String → List RecurringMessage → Option RecurringMessage
latest k [] = none
latest k (m ∷ ms) = or_else (latest k ms) (if str_eq m.msg_type k then some m else none)

get-put :
    (k j : String) (m : RecurringMessage) (d : Configs)
    → get j (put k m d) ≡ (if str_eq k j then some m else get j d)
get-put k j m [] = refl
get-put k j m ((i, w) ∷ d) = ground (arith, eq_iff k j, eq_iff i k, eq_iff i j, get-put k j m d)

get-map_from :
    (k : String) (d : Configs) (ms : List RecurringMessage)
    → get k (map_from d ms) ≡ or_else (latest k ms) (get k d)
unfolding map_from
get-map_from k d [] = refl
get-map_from k d (m ∷ ms) =
    ground (arith, get-map_from k (put m.msg_type m d) ms, get-put m.msg_type k m d)

get-recurring_message_map :
    (k : String) (ms : List RecurringMessage) → get k (recurring_message_map ms) ≡ latest k ms
unfolding recurring_message_map
get-recurring_message_map k ms = ground (arith, get-map_from k [] ms)

-- Each key is the type of its message, and stands once.
abbrev IsKeyed : Configs → Type 0
IsKeyed [] = Unit
IsKeyed ((k, m) ∷ d) = (m.msg_type ≡ k) × (get k d ≡ none) × IsKeyed d

put-IsKeyed : (m : RecurringMessage) (d : Configs) → IsKeyed d → IsKeyed (put m.msg_type m d)
put-IsKeyed m [] h = (refl, refl, tt)
put-IsKeyed m ((j, w) ∷ d) h =
    ground (
      arith,
      put-IsKeyed m d h.2,
      get-put m.msg_type j m d,
      eq_iff j m.msg_type,
      eq_iff m.msg_type j,
    )

map_from-IsKeyed : (d : Configs) (ms : List RecurringMessage) → IsKeyed d → IsKeyed (map_from d ms)
unfolding map_from
map_from-IsKeyed d [] h = h
map_from-IsKeyed d (m ∷ ms) h = map_from-IsKeyed (put m.msg_type m d) ms (put-IsKeyed m d h)

latest-values : (k : String) (d : Configs) → IsKeyed d → latest k (values d) ≡ get k d
unfolding values
latest-values k [] h = refl
latest-values k ((j, m) ∷ d) h = ground (arith, latest-values k d, h.2, h.1, h.0, eq_iff j k)

latest-dedupe_recurring_messages :
    (k : String) (ms : List RecurringMessage)
    → latest k (dedupe_recurring_messages ms) ≡ latest k ms
unfolding dedupe_recurring_messages
latest-dedupe_recurring_messages k ms =
    latest-values k (map_from [] ms) (map_from-IsKeyed [] ms tt) ∙ get-recurring_message_map k ms

abbrev pub or_default : Option RecurringMessage → RecurringMessage → RecurringMessage
or_default none d = d
or_default (some m) d = m

-- Configuring keeps, for every type, the message that was configured last, and whatever the
-- application configures a message for FAIL_ZOMBIE_JOBS stays among the configured ones: the
-- application's last one of that type, and the framework's own if it gives none.
pub get-configure_recurring_messages :
    (k : String) (ms : List RecurringMessage)
    → (get k (recurring_message_map (configure_recurring_messages ms))
        ≡ latest k (default_recurring_messages ++ ms))
      × (get fail_zombie_jobs_message_type (recurring_message_map (configure_recurring_messages ms))
          ≡ some (
              or_default
                (latest fail_zombie_jobs_message_type ms)
                fail_zombie_jobs_recurring_message))
unfolding configure_recurring_messages
get-configure_recurring_messages k ms =
    (configured k, configured fail_zombie_jobs_message_type ∙ ground arith)
  where
    configured :
        (j : String)
        → get j (recurring_message_map (configure_recurring_messages ms))
          ≡ latest j (default_recurring_messages ++ ms)
    configured j =
        get-recurring_message_map j (configure_recurring_messages ms)
        ∙ latest-dedupe_recurring_messages j (default_recurring_messages ++ ms)
