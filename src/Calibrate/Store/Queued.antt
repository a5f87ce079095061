-- ===== src/Calibrate/Store/Queued.antt =====
-- `ParamsStore` of src/bin/nxr_calibrate.rs against a store that writes every outcome at once.
use series_factory.Prelude.{
  ◌-◌, ◌≡◌, refl, sym, ◌∙◌, ap, String, Bool, true, false, Option, none, some, List, [], ◌∷◌, ◌++◌,
  is_empty, ltb, if◌then◌else◌,
}
use text.Mathlib.TextEquality.{eq_iff}
use series_factory.Calibrate.Store.{
  ParamsStore, Format, Luck, read_raw, apply_queue, same_text, updated, update, stage, dropped,
  Call, updating, staging, run,
}

module _ {S W : Type 0} (fmt : Format S W) where
  -- The file with the queued outcomes applied.
  abbrev pub with_queue : List S → Option W → Option W
  with_queue queue none = none
  with_queue queue (some w) = some (apply_queue fmt queue w)

  abbrev pub view : ParamsStore S → Option W
  view st = with_queue st.pending (read_raw fmt st.file)

  -- The store that has no queue: an outcome takes effect at once, and so does an update that succeeds.
  abbrev pub spec_call : Call fmt → Bool → W → W
  spec_call (updating f) true w = f w
  spec_call (updating f) false w = w
  spec_call (staging s) b w = fmt.apply s w

  -- Which calls of a run succeed.
  unfoldable pub results : List (Luck × Call fmt) → ParamsStore S → List Bool
  results [] st = []
  results ((luck, updating f) ∷ calls) st =
      (update fmt luck f st).0 ∷ results calls (update fmt luck f st).1
  results ((luck, staging s) ∷ calls) st =
      (stage fmt luck s st).0 ∷ results calls (stage fmt luck s st).1

  abbrev pub spec_run : List (Luck × Call fmt) → List Bool → W → W
  spec_run [] bs w = w
  spec_run (c ∷ calls) [] w = w
  spec_run ((luck, c) ∷ calls) (b ∷ bs) w = spec_run calls bs (spec_call c b w)

  apply_queue-append :
      (queue : List S) (s : S) (w : W)
      → apply_queue fmt (queue ++ s ∷ []) w ≡ fmt.apply s (apply_queue fmt queue w)
  apply_queue-append [] s w = refl
  apply_queue-append (q ∷ queue) s w = apply_queue-append queue s (fmt.apply q w)

  module _ (parses : (w : W) → fmt.parse (fmt.print w) ≡ some w) where
    -- What an update promises: its mutation on success, and no change to the view on failure.
    abbrev Updated : (W → W) → W → Bool × ParamsStore S → Type 0
    Updated f w (b, st) = view st ≡ some (spec_call (updating f) b w)

    written-Updated :
        (luck : Luck) (f : W → W) (w : W) (out : W) (st : ParamsStore S)
        → out ≡ f w
        → view st ≡ some w
        → (same changed : Bool) → same_text fmt st.file (fmt.print out) ≡ same
        → Updated f w (
            if same
            then (true, record st { pending = []; last_write = luck.now })
            else if changed
            then (
              true,
              record st { pending = []; last_write = luck.now; file = some (fmt.print out) },
            )
            else (false, st))
    written-Updated luck f w out st e v true changed h = text st.file h
      where
        text :
            (file : Option String)
            → same_text fmt file (fmt.print out) ≡ true
            → with_queue [] (read_raw fmt file) ≡ some (f w)
        text none h = cc h
        text (some raw) h = rw ((eq_iff raw (fmt.print out)).0 h, parses) (ap some e)
    written-Updated luck f w out st e v false true h = rw parses (ap some e)
    written-Updated luck f w out st e v false false h = v

    with_queue-some :
        (queue : List S) (o : Option W) (w : W)
        → with_queue queue o ≡ some w
        → (u : W) × (o ≡ some u) × (apply_queue fmt queue u ≡ w)
    with_queue-some queue none w h = cc h
    with_queue-some queue (some u) w h = (u, refl, cc h)

    updated-Updated :
        (luck : Luck) (f : W → W) (w : W) (st : ParamsStore S) (o : Option W)
        → read_raw fmt st.file ≡ o
        → view st ≡ some w
        → Updated f w (updated fmt luck f o st)
    updated-Updated luck f w st none e v =
        let nothing : some w ≡ none = sym v ∙ ap (with_queue st.pending) e in cc
    updated-Updated luck f w st (some u) e v =
        let same : some (apply_queue fmt st.pending u) ≡ some w =
          sym (ap (with_queue st.pending) e) ∙ v in
        written-Updated luck f w (f (apply_queue fmt st.pending u)) st (ap f (cc same)) v
          (same_text fmt st.file (fmt.print (f (apply_queue fmt st.pending u)))) luck.writable refl

    if-Updated :
        (b : Bool) (f : W → W) (w : W) (r : Bool × ParamsStore S) (st : ParamsStore S)
        → Updated f w r
        → view st ≡ some w
        → Updated f w (if b then r else (false, st))
    if-Updated true f w r st h v = h
    if-Updated false f w r st h v = v

    update-Updated :
        (luck : Luck) (f : W → W) (w : W) (st : ParamsStore S)
        → view st ≡ some w
        → Updated f w (update fmt luck f st)
    unfolding update
    update-Updated luck f w st v =
        if-Updated luck.locked f w _ st (updated-Updated luck f w st (read_raw fmt st.file) refl v)
          v

    same-view : (w : W) (r : Bool × ParamsStore S) → Updated (λ u. u) w r → view r.1 ≡ some w
    same-view w (true, st) h = h
    same-view w (false, st) h = h

    queued-view :
        (s : S) (w : W) (st : ParamsStore S)
        → view st ≡ some w
        → with_queue (st.pending ++ s ∷ []) (read_raw fmt st.file) ≡ some (fmt.apply s w)
    queued-view s w st v =
        let (u, e, applied) = with_queue-some st.pending (read_raw fmt st.file) w v in
        ap (with_queue (st.pending ++ s ∷ [])) e
        ∙ ap some (apply_queue-append st.pending s u ∙ ap (fmt.apply s) applied)

    if-view :
        (b : Bool) (x y : Bool × ParamsStore S) (w : W)
        → view x.1 ≡ some w
        → view y.1 ≡ some w
        → view (if b then x else y).1 ≡ some w
    if-view true x y w h k = h
    if-view false x y w h k = k

    stage-view :
        (luck : Luck) (s : S) (w : W) (st : ParamsStore S)
        → view st ≡ some w
        → view (stage fmt luck s st).1 ≡ some (fmt.apply s w)
    unfolding stage
    stage-view luck s w st v =
        if-view (ltb (luck.now - st.last_write) st.flush_every) _ _ (fmt.apply s w)
          (queued-view s w st v)
          (same-view (fmt.apply s w)
            (update fmt luck (λ u. u)
              (record st { pending = st.pending ++ s ∷ []; last_write = luck.now }))
            (update-Updated luck (λ u. u) (fmt.apply s w)
              (record st { pending = st.pending ++ s ∷ []; last_write = luck.now })
              (queued-view s w st v)))

    -- Where what is printed parses back, a run of calls, however their locks and writes fare, shows what the store without a queue has: no
    -- outcome is lost or applied twice, and none changes place with an update.
    pub run-spec_run :
        (calls : List (Luck × Call fmt)) (st : ParamsStore S) (w : W)
        → view st ≡ some w
        → view (run fmt calls st) ≡ some (spec_run calls (results calls st) w)
    unfolding run results
    run-spec_run [] st w v = v
    run-spec_run ((luck, updating f) ∷ calls) st w v =
        run-spec_run calls (update fmt luck f st).1
          (spec_call (updating f) (update fmt luck f st).0 w) (update-Updated luck f w st v)
    run-spec_run ((luck, staging s) ∷ calls) st w v =
        run-spec_run calls (stage fmt luck s st).1 (fmt.apply s w) (stage-view luck s w st v)

    empty_view :
        (st : ParamsStore S) (w : W)
        → is_empty st.pending ≡ true
        → view st ≡ some w
        → read_raw fmt st.file ≡ some w
    empty_view st w e v = emptied st.pending e v
      where
        emptied :
            (queue : List S)
            → is_empty queue ≡ true
            → with_queue queue (read_raw fmt st.file) ≡ some w
            → read_raw fmt st.file ≡ some w
        emptied [] h k =
            let (u, same, applied) = with_queue-some [] (read_raw fmt st.file) w k in
            same ∙ ap some applied
        emptied (s ∷ queue) h k = cc h

    read_of_view :
        (st : ParamsStore S) (w : W)
        → st.pending ≡ []
        → view st ≡ some w
        → read_raw fmt st.file ≡ some w
    read_of_view st w e v =
        no_queue (read_raw fmt st.file) (sym (ap (λ q. with_queue q (read_raw fmt st.file)) e) ∙ v)
      where
        no_queue : (o : Option W) → with_queue [] o ≡ some w → o ≡ some w
        no_queue none h = h
        no_queue (some u) h = h

    cleared :
        (luck : Luck) (st : ParamsStore S) (w : W) (o : Option W)
        → luck.writable ≡ true
        → with_queue st.pending o ≡ some w
        → (updated fmt luck (λ u. u) o st).1.pending ≡ []
    cleared luck st w none can v = cc v
    cleared luck st w (some u) can v = rw can (
        either (same_text fmt st.file (fmt.print (apply_queue fmt st.pending u))) (true, _)
          (true, _) refl refl)
      where
        either :
            (same : Bool) (x y : Bool × ParamsStore S)
            → x.1.pending ≡ []
            → y.1.pending ≡ []
            → (if same then x else y).1.pending ≡ []
        either true x y h k = h
        either false x y h k = k

    -- Where what is printed parses back, and the last flush can take the lock and write, the file that a run leaves has every outcome and every
    -- update that succeeded, in the order of the calls.
    dropped-run :
        (calls : List (Luck × Call fmt)) (st : ParamsStore S) (w : W) (luck : Luck)
        → view st ≡ some w
        → luck.locked ≡ true
        → luck.writable ≡ true
        → read_raw fmt (dropped fmt luck (run fmt calls st)).file
          ≡ some (spec_run calls (results calls st) w)
    unfolding dropped update
    dropped-run calls st w luck v lock can =
        drop (run fmt calls st) (spec_run calls (results calls st) w) (run-spec_run calls st w v)
          (is_empty (run fmt calls st).pending) refl
      where
        flush :
            (u : ParamsStore S) (x : W)
            → view u ≡ some x
            → read_raw fmt (update fmt luck (λ t. t) u).1.file ≡ some x
        flush u x k = rw lock (
            read_of_view (updated fmt luck (λ t. t) (read_raw fmt u.file) u).1 x
              (cleared luck u x (read_raw fmt u.file) can k)
              (same-view x (updated fmt luck (λ t. t) (read_raw fmt u.file) u)
                (updated-Updated luck (λ t. t) x u (read_raw fmt u.file) refl k)))

        drop :
            (u : ParamsStore S) (x : W)
            → view u ≡ some x
            → (b : Bool) → is_empty u.pending ≡ b
            → read_raw fmt (if b then u else (update fmt luck (λ t. t) u).1).file ≡ some x
        drop u x k true e = empty_view u x e k
        drop u x k false e = flush u x k
