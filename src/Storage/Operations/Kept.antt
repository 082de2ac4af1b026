-- ===== src/Storage/Operations/Kept.antt =====
-- What is saved by the operations of service/storage/operations.go is what they retrieve.
use flow_dps.Base.{◌≡◌, ◌≢◌, sym, ◌∙◌, ap, subst, List, [], ◌∷◌, map}
use flow_dps.Base.Outcome.{Result, ok, err, after}
use flow_dps.Storage.Library.{Badger, Values, combine}
use flow_dps.Storage.Library.RoundTrip.{
  IsStore, IsCodec, Holds, save-Holds, save-Holds_other, save-OnlyEntries,
}
use flow_dps.Storage.Retrieving.History.{IsReverse, OnlyEntries}
use flow_dps.Storage.Entries.{key_of, key_of-injective, InRange}
use flow_dps.Storage.Operations.{Saving, Query, write_of, entry_of, asked, perform, ask, Retrieved}
use flow_dps.Storage.Operations.Keys.{perform-save, ask-save_other, Retrieved-Stored}

module _ (B : Badger) (V : Values) where
  -- Later calls are in range and write none of the entry of `s`.
  abbrev pub NotAgain : Saving V → List (Saving V) → Type 0
  NotAgain s [] = Unit
  NotAgain s (t ∷ ts) = InRange (entry_of V t) × (entry_of V t ≢ entry_of V s) × NotAgain s ts

  module _ (store : IsStore B) where
    perform-OnlyEntries :
        (s : Saving V) (tx : B.Txn)
        → InRange (entry_of V s)
        → OnlyEntries B tx
        → OnlyEntries B (perform B V s tx).1
    perform-OnlyEntries s tx r only =
        subst (λ (o : Result (Unit {0}) × B.Txn). OnlyEntries B o.1) (sym (perform-save B V s tx))
          (save-OnlyEntries B store (write_of V s).codec (entry_of V s) (write_of V s).content tx r
            only)

    -- A call that writes, successful or not, does not change what an operation reads of another
    -- entry, if the heights and hashes of both are uint64 and the identifiers and paths have 32 bytes.
    pub ask-perform :
        (s : Saving V) (q : Query) (tx : B.Txn)
        → InRange (entry_of V s)
        → InRange (asked q)
        → entry_of V s ≢ asked q
        → ask B V q (perform B V s tx).1 ≡ ask B V q tx
    ask-perform s q tx r rq n =
        ap (λ (o : Result (Unit {0}) × B.Txn). ask B V q o.1) (perform-save B V s tx)
        ∙ ask-save_other B V store q (write_of V s).codec (entry_of V s) (write_of V s).content tx
            (λ e. n (key_of-injective (entry_of V s) (asked q) r rq e))

    perform-Holds :
        (s : Saving V) (tx : B.Txn)
        → (perform B V s tx).0 ≡ ok tt
        → Holds B
            (write_of V s).codec
            (key_of (entry_of V s))
            (write_of V s).content
            (perform B V s tx).1
    perform-Holds s tx done =
        subst
          (λ (o : Result (Unit {0}) × B.Txn).
            Holds B (write_of V s).codec (key_of (entry_of V s)) (write_of V s).content o.1)
          (sym (perform-save B V s tx))
          (save-Holds B store (write_of V s).codec (key_of (entry_of V s)) (write_of V s).content tx
            (sym (ap (λ (o : Result (Unit {0}) × B.Txn). o.0) (perform-save B V s tx)) ∙ done))

    perform-Holds_other :
        (s t : Saving V) (tx : B.Txn)
        → InRange (entry_of V s)
        → InRange (entry_of V t)
        → entry_of V t ≢ entry_of V s
        → Holds B (write_of V s).codec (key_of (entry_of V s)) (write_of V s).content tx
        → Holds B
            (write_of V s).codec
            (key_of (entry_of V s))
            (write_of V s).content
            (perform B V t tx).1
    perform-Holds_other s t tx rs rt n h =
        subst
          (λ (o : Result (Unit {0}) × B.Txn).
            Holds B (write_of V s).codec (key_of (entry_of V s)) (write_of V s).content o.1)
          (sym (perform-save B V t tx))
          (save-Holds_other B store (write_of V t).codec (key_of (entry_of V t))
            (write_of V t).content tx (write_of V s).codec (key_of (entry_of V s))
            (write_of V s).content (λ e. n (key_of-injective (entry_of V t) (entry_of V s) rt rs e))
            h)

    abbrev Kept : Saving V → B.Txn → Type 0
    Kept s tx =
        Holds B (write_of V s).codec (key_of (entry_of V s)) (write_of V s).content tx
        × OnlyEntries B tx

    then-Kept :
        (s : Saving V) (ts : List (Saving V)) (r : Result (Unit {0})) (tx : B.Txn)
        → Kept s tx
        → Kept s (combine (map (perform B V) ts) tx).1
        → Kept s (after r (λ _. combine (map (perform B V) ts)) tx).1
    then-Kept s ts (ok u) tx before later = later
    then-Kept s ts (err e) tx before later = before

    combine-Kept :
        (s : Saving V) (ts : List (Saving V)) (tx : B.Txn)
        → InRange (entry_of V s)
        → NotAgain s ts
        → Kept s tx
        → Kept s (combine (map (perform B V) ts) tx).1
    unfolding combine
    combine-Kept s [] tx range other k = k
    combine-Kept s (t ∷ ts) tx range other k =
        let one : Kept s (perform B V t tx).1 = (
          perform-Holds_other s t tx range other.0 other.1 k.0,
          perform-OnlyEntries t tx other.0 k.1,
        ) in
        then-Kept s ts (perform B V t tx).0 (perform B V t tx).1 one
          (combine-Kept s ts (perform B V t tx).1 range other.2 one)

    -- Over a store that returns what was set, an iterator in reverse as Badger documents it, a codec
    -- that decodes what it encoded and a database with only the library's entries: after a call of any
    -- operation that writes, and then any calls, failing or not, that write other entries, with
    -- heights, hashes, identifiers and paths in range: if the first call succeeded, the operation that
    -- reads its entry returns what it wrote. Of a batch of events, its key holds the encoded batch.
    pub perform-Retrieved :
        (s : Saving V) (ts : List (Saving V)) (tx : B.Txn)
        → IsReverse B
        → IsCodec (write_of V s).codec
        → OnlyEntries B tx
        → InRange (entry_of V s)
        → NotAgain s ts
        → (perform B V s tx).0 ≡ ok tt
        → Retrieved B V s (combine (map (perform B V) ts) (perform B V s tx).1).1
    perform-Retrieved s ts tx rev law only range other done =
        let (h, only') =
          combine-Kept s ts (perform B V s tx).1 range other
            (perform-Holds s tx done, perform-OnlyEntries s tx range only) in
        Retrieved-Stored B V s (combine (map (perform B V) ts) (perform B V s tx).1).1 rev law only'
          range h
