-- ===== src/Server/Watching.antt =====
-- src/server/server.c: what `handle_inotify_events` logs. The kernel's buffer is a list of events.
use pcd.Prelude.{
  ℕ, none, some, List, [], ◌∷◌, ◌++◌, Bytes, codes, length, decimal, ◌==◌, if◌then◌else◌, map, ◌≡◌,
  refl, sym, ap, ◌∙◌,
}
use pcd.Storage.{StorageDirs}
use pcd.Server.Inotify.{Watches, inotify_watch_name, inotify_mask_to_string}

-- `struct inotify_event`; the name is empty when the event has none.
pub record InotifyEvent : Type 0 where
  pub wd : ℕ
  pub mask : ℕ
  pub cookie : ℕ
  pub name : Bytes

-- One call of `read`: EINTR, EAGAIN, another error, the end, or events.
pub data InotifyRead : Type 0 where
  again would_block broken ended : InotifyRead
  gives : List InotifyEvent → InotifyRead

module _ (dirs : StorageDirs) (watches : Watches) where
  abbrev pub mask_text : ℕ → Bytes
  mask_text mask = elim (inotify_mask_to_string mask 256) [ none ↦ [] | some text ↦ text ]

  unfoldable pub inotify_text : InotifyEvent → Bytes
  inotify_text event =
      codes "INotify dir="
      ++ (inotify_watch_name dirs watches event.wd
          ++ (codes " event="
              ++ (mask_text event.mask
                  ++ (codes " name="
                      ++ ((if length event.name == 0 then codes "(none)" else event.name)
                          ++ (codes " cookie=" ++ decimal event.cookie))))))

  -- The lines in order, without the number of an error; with no call left, nothing more is there.
  unfoldable pub handle_inotify_events : List InotifyRead → List Bytes
  handle_inotify_events [] = []
  handle_inotify_events (again ∷ calls) = handle_inotify_events calls
  handle_inotify_events (would_block ∷ calls) = []
  handle_inotify_events (broken ∷ calls) = codes "INotify read failed" ∷ []
  handle_inotify_events (ended ∷ calls) = []
  handle_inotify_events (gives events ∷ calls) =
      map inotify_text events ++ handle_inotify_events calls

  -- The events that come before the first call that ends the loop.
  unfoldable pub events_before_end : List InotifyRead → List InotifyEvent
  events_before_end [] = []
  events_before_end (again ∷ calls) = events_before_end calls
  events_before_end (gives events ∷ calls) = events ++ events_before_end calls
  events_before_end (_ ∷ calls) = []

  abbrev pub NoError : List InotifyRead → Type 0
  NoError [] = Unit
  NoError (broken ∷ calls) = ⊥
  NoError (_ ∷ calls) = NoError calls

  map-append :
      (xs ys : List InotifyEvent)
      → map inotify_text (xs ++ ys) ≡ map inotify_text xs ++ map inotify_text ys
  map-append [] ys = refl
  map-append (x ∷ xs) ys = ap (◌∷◌ (inotify_text x)) (map-append xs ys)

  -- Every event that is there is logged, once and in order, when no call of read fails.
  pub handle_inotify_events-map :
      (calls : List InotifyRead)
      → NoError calls
      → handle_inotify_events calls ≡ map inotify_text (events_before_end calls)
  unfolding handle_inotify_events events_before_end
  handle_inotify_events-map [] fine = refl
  handle_inotify_events-map (again ∷ calls) fine = handle_inotify_events-map calls fine
  handle_inotify_events-map (would_block ∷ calls) fine = refl
  handle_inotify_events-map (broken ∷ calls) fine = absurd fine
  handle_inotify_events-map (ended ∷ calls) fine = refl
  handle_inotify_events-map (gives events ∷ calls) fine =
      ap (◌++◌ (map inotify_text events)) (handle_inotify_events-map calls fine)
      ∙ sym (map-append events (events_before_end calls))
