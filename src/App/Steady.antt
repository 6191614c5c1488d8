-- ===== src/App/Steady.antt =====
-- src/clipboard/wayland: what the handlers of events leave alone, and how many reads they queue.
use uclip_daemon.Base.{
  ℕ, ◌+◌, ◌*◌, ◌≤◌, ◌≡◌, refl, ap, ◌∙◌, String, List, [], ◌∷◌, Option, Bool, true, false, none,
  some, length, length-append, arith, Bool-cases, ◌||◌, Option-cases, inl, inr,
}
use uclip_daemon.Base.Eq.{string_eq, ◌==◌}
use uclip_daemon.HashMap.Laws.{is_some}
use uclip_daemon.Config.{max_mimes_per_selection}
use uclip_daemon.Mime.{pick_mimes}
use uclip_daemon.Mime.Sound.{pick_mimes_sound}
use uclip_daemon.History.Content.{BlobOrder}
use uclip_daemon.App.{
  AppState, Proxy, SourceData, set_seat, set_manager, clear_device, take_source_if_active,
  insert_offer, push_offer_mime, set_selection, clear_selection, push_pending_read,
}
use uclip_daemon.App.Dispatch.{
  RegistryEvent, global, global_remove, dispatch_registry, dispatch_offer, SourceEvent, send,
  cancelled, destroy_taken, dispatch_source, DeviceEvent, data_offer, selection, finished,
  primary_selection, PipeAnswer, pipe_failed, flush_failed, piped, request_mime, request_all,
  other_than, change_selection, request_offered, dispatch_device, WaylandEvent, registry_event,
  offer_event, source_event, device_event, dispatch_event, dispatch_all,
}

-- The compositor announces a global of this interface.
unfoldable pub announces : String → WaylandEvent → Bool
announces i (registry_event bound (global name interface version)) = interface == i
announces i _ = false

unfoldable pub announced : String → List WaylandEvent → Bool
announced i [] = false
announced i (e ∷ es) = announces i e || announced i es

-- The history is as it was, at most `n` reads were queued, and a seat and a manager are there if
-- they were or if they were announced.
pub record IsSteady (n : ℕ) (seat manager : Bool) (s t : AppState) : Type 0 where
  pub same_history : t.clipboard ≡ s.clipboard
  pub seat_kept : is_some t.seat ≡ (is_some s.seat || seat)
  pub manager_kept : is_some t.manager ≡ (is_some s.manager || manager)
  pub few_reads : length t.pending_reads ≤ length s.pending_reads + n

or_false : (b : Bool) → b ≡ (b || false)
or_false true = refl
or_false false = refl

or_true : (b : Bool) → true ≡ (b || true)
or_true true = refl
or_true false = refl

or_assoc : (a b c : Bool) → ((a || b) || c) ≡ (a || (b || c))
or_assoc true b c = refl
or_assoc false b c = refl

unchanged :
    (n : ℕ) (s t : AppState)
    → t.clipboard ≡ s.clipboard
    → t.seat ≡ s.seat
    → t.manager ≡ s.manager
    → t.pending_reads ≡ s.pending_reads
    → IsSteady n false false s t
unchanged n s t c w m r = record {
  same_history = c;
  seat_kept = ap is_some w ∙ or_false _;
  manager_kept = ap is_some m ∙ or_false _;
  few_reads = omega (arith, ap length r);
}

request_mime-IsSteady :
    (a : PipeAnswer) (s : AppState) (offer : Proxy) (m : String)
    → IsSteady 1 false false s (request_mime a s offer m)
unfolding request_mime push_pending_read
request_mime-IsSteady (pipe_failed e) s offer m = unchanged _ _ _ refl refl refl refl
request_mime-IsSteady (flush_failed e) s offer m = unchanged _ _ _ refl refl refl refl
request_mime-IsSteady (piped fd) s offer m = record {
  same_history = refl;
  seat_kept = or_false _;
  manager_kept = or_false _;
  few_reads = omega (
    arith,
    length-append s.pending_reads
        (record { fd = fd; mime_type = m; offer_id = offer.protocol_id } ∷ []),
  );
}

pub IsSteady-trans :
    {m n : ℕ} {a b c d : Bool} {s t u : AppState}
    → IsSteady m a b s t
    → IsSteady n c d t u
    → IsSteady (m + n) (a || c) (b || d) s u
IsSteady-trans {a} {b} {c} {d} {s} h k = record {
  same_history = k.same_history ∙ h.same_history;
  seat_kept = k.seat_kept ∙ ap (λ (x : Bool). x || c) h.seat_kept ∙ or_assoc (is_some s.seat) a c;
  manager_kept =
      k.manager_kept ∙ ap (λ (x : Bool). x || d) h.manager_kept ∙ or_assoc (is_some s.manager) b d;
  few_reads = omega (arith, h.few_reads, k.few_reads);
}

IsSteady-more :
    {m n : ℕ} {a b : Bool} {s t : AppState} → m ≤ n → IsSteady m a b s t → IsSteady n a b s t
IsSteady-more le h = record {
  same_history = h.same_history;
  seat_kept = h.seat_kept;
  manager_kept = h.manager_kept;
  few_reads = omega (arith, h.few_reads);
}

request_all-IsSteady :
    (pipes : String → PipeAnswer) (s : AppState) (offer : Proxy) (ms : List String)
    → IsSteady (length ms) false false s (request_all pipes s offer ms)
unfolding request_all
request_all-IsSteady pipes s offer [] = unchanged _ _ _ refl refl refl refl
request_all-IsSteady pipes s offer (m ∷ ms) = IsSteady-more (omega arith) (
    IsSteady-trans (request_mime-IsSteady (pipes m) s offer m)
      (request_all-IsSteady pipes (request_mime (pipes m) s offer m) offer ms))

request_offered-IsSteady :
    (pipes : String → PipeAnswer) (s : AppState) (offer : Proxy) (o : Option (List String))
    → IsSteady max_mimes_per_selection false false s (request_offered pipes s offer o)
unfolding request_offered
request_offered-IsSteady pipes s offer none = unchanged _ _ _ refl refl refl refl
request_offered-IsSteady pipes s offer (some ms) =
    IsSteady-more ((pick_mimes_sound ms).0) (request_all-IsSteady pipes s offer (pick_mimes ms))

clear_selection-IsSteady : (s : AppState) → IsSteady 0 false false s (clear_selection s)
unfolding clear_selection
clear_selection-IsSteady s = elim (Option-cases s.current_selection) [
  | inl e ↦ unchanged _ _ _ (ground arith) (ground arith) (ground arith) (ground arith)
  | inr (old, e) ↦ unchanged _ _ _ (ground arith) (ground arith) (ground arith) (ground arith)
]

change_selection-IsSteady :
    (s : AppState) (offer : Proxy) → IsSteady 0 false false s (change_selection s offer)
unfolding change_selection set_selection
change_selection-IsSteady s offer =
    let c = clear_selection-IsSteady s in
    elim (Bool-cases (other_than s.current_selection offer)) [
      | inl e ↦
          IsSteady-trans {m = 0} c
            (unchanged 0 _ _ (ground arith) (ground arith) (ground arith) (ground arith))
      | inr e ↦ unchanged _ _ _ (ground arith) (ground arith) (ground arith) (ground arith)
    ]

dispatch_device-IsSteady :
    (pipes : String → PipeAnswer) (s : AppState) (e : DeviceEvent)
    → IsSteady max_mimes_per_selection false false s (dispatch_device pipes s e)
unfolding dispatch_device insert_offer clear_device
dispatch_device-IsSteady pipes s (data_offer offer) = unchanged _ _ _ refl refl refl refl
dispatch_device-IsSteady pipes s (selection none) =
    IsSteady-more (omega arith) (clear_selection-IsSteady s)
dispatch_device-IsSteady pipes s (selection (some offer)) =
    IsSteady-trans (change_selection-IsSteady s offer)
      (request_offered-IsSteady pipes (change_selection s offer) offer _)
dispatch_device-IsSteady pipes s finished = IsSteady-more (omega arith) (
    IsSteady-trans (unchanged 0 s (clear_device s) refl refl refl refl)
      (clear_selection-IsSteady _))
dispatch_device-IsSteady pipes s (primary_selection o) = unchanged _ _ _ refl refl refl refl

seat_is_no_manager :
    (i : String) → (i == "wl_seat") ≡ true → (i == "ext_data_control_manager_v1") ≡ false
seat_is_no_manager i h = rw ((string_eq.beq_iff i "wl_seat").0 h) refl

dispatch_registry-IsSteady :
    (bound : Proxy) (s : AppState) (e : RegistryEvent)
    → let w = registry_event bound e in
      IsSteady 0
        (announces "wl_seat" w)
        (announces "ext_data_control_manager_v1" w)
        s
        (dispatch_registry bound s e)
unfolding dispatch_registry set_seat set_manager announces
dispatch_registry-IsSteady bound s (global name interface version) =
    elim (Bool-cases (interface == "wl_seat")) [
      | inl e ↦ record {
        same_history = ground arith;
        seat_kept = ground (arith, or_true (is_some s.seat));
        manager_kept = ground (arith, or_false (is_some s.manager), seat_is_no_manager interface e);
        few_reads = ground arith;
      }
      | inr e ↦ elim (Bool-cases (interface == "ext_data_control_manager_v1")) [
        | inl f ↦ record {
          same_history = ground arith;
          seat_kept = ground (arith, or_false (is_some s.seat));
          manager_kept = ground (arith, or_true (is_some s.manager));
          few_reads = ground arith;
        }
        | inr f ↦ record {
          same_history = ground arith;
          seat_kept = ground (arith, or_false (is_some s.seat));
          manager_kept = ground (arith, or_false (is_some s.manager));
          few_reads = ground arith;
        }
      ]
    ]
dispatch_registry-IsSteady bound s (global_remove name) = unchanged _ _ _ refl refl refl refl

dispatch_source-IsSteady :
    (it : BlobOrder) (s : AppState) (source : Proxy) (d : SourceData) (e : SourceEvent)
    → IsSteady 0 false false s (dispatch_source it s source d e).0
unfolding dispatch_source take_source_if_active destroy_taken
dispatch_source-IsSteady it s source d (send m) = unchanged _ _ _ refl refl refl refl
dispatch_source-IsSteady it s source d cancelled =
    unchanged _ _ _ (ground arith) (ground arith) (ground arith) (ground arith)

-- An event changes neither the history nor, once there, the manager, and queues at most as many
-- reads as types are requested.
pub dispatch_event-IsSteady :
    (it : BlobOrder) (s : AppState) (e : WaylandEvent)
    → IsSteady max_mimes_per_selection
        (announces "wl_seat" e)
        (announces "ext_data_control_manager_v1" e)
        s
        (dispatch_event it s e)
unfolding announces dispatch_event dispatch_offer push_offer_mime
dispatch_event-IsSteady it s (registry_event bound e) =
    IsSteady-more (omega arith) (dispatch_registry-IsSteady bound s e)
dispatch_event-IsSteady it s (offer_event offer m) = unchanged _ _ _ refl refl refl refl
dispatch_event-IsSteady it s (source_event source d e) =
    IsSteady-more (omega arith) (dispatch_source-IsSteady it s source d e)
dispatch_event-IsSteady it s (device_event pipes e) = dispatch_device-IsSteady pipes s e

pub dispatch_all-IsSteady :
    (it : BlobOrder) (s : AppState) (es : List WaylandEvent)
    → IsSteady
        (max_mimes_per_selection * length es)
        (announced "wl_seat" es)
        (announced "ext_data_control_manager_v1" es)
        s
        (dispatch_all it s es)
unfolding announced dispatch_all
dispatch_all-IsSteady it s [] = unchanged _ _ _ refl refl refl refl
dispatch_all-IsSteady it s (e ∷ es) = IsSteady-more (omega arith) (
    IsSteady-trans (dispatch_event-IsSteady it s e)
      (dispatch_all-IsSteady it (dispatch_event it s e) es))
