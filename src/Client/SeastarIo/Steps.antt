-- ===== src/Client/SeastarIo/Steps.antt =====
-- What each call and each completion does to the trace of a SeastarIO.
use distributed_logger.Base.{
  ℕ, ◌+◌, ◌-◌, ◌≤◌, ◌<◌, ◌≡◌, refl, sym, ap, ◌∙◌, Bool, true, false, ◌||◌, not, none, some, List,
  [], ◌∷◌, ◌++◌, append_assoc, arith, leb, if◌then◌else◌, length, length-append, mod64, add64,
}
use distributed_logger.Client.SeastarIo.{
  SeastarIo, reconnect, transmit, write_completes, with_length,
}
use distributed_logger.Client.SeastarIo.Trace.{
  refused, blocks, flying, total, IsTraced, blocks-append, total-append, total-refused-append,
  count_ok-append, length-with_length,
}

-- The other fields do not matter.
pub set_others :
    (m : ℕ) (up down armed : Bool) (n d : ℕ) (sent : List (List ℕ)) (io : SeastarIo)
    → IsTraced sent io
    → IsTraced sent (record io {
      queue_max_size = m;
      connected = up;
      shutting_down = down;
      timer_armed = armed;
      connecting = n;
      log_dropped_cnt = d;
    })
set_others m up down armed n d sent io t = record {
  order = t.order;
  idle = t.idle;
  posted = t.posted;
  written = t.written;
  counted = t.counted;
  in_range = t.in_range;
}

either-IsTraced :
    {sent : List (List ℕ)} (b : Bool) (x y : SeastarIo)
    → IsTraced sent x
    → IsTraced sent y
    → IsTraced sent (if b then x else y)
either-IsTraced true x y p q = p
either-IsTraced false x y p q = q

pub reconnect-IsTraced :
    (sent : List (List ℕ)) (io : SeastarIo) → IsTraced sent io → IsTraced sent (reconnect io)
unfolding reconnect
reconnect-IsTraced sent io t =
    either-IsTraced io.timer_armed io (record io { timer_armed = true }) t
      (set_others io.queue_max_size io.connected io.shutting_down true io.connecting
        io.log_dropped_cnt sent io t)

pub transmit-IsTraced :
    (q : List (List ℕ)) (sent : List (List ℕ)) (io : SeastarIo)
    → IsTraced sent (record io { transmitting = false; in_flight = none; wqueue = q })
    → IsTraced sent (transmit q io)
unfolding transmit
transmit-IsTraced [] sent io t = t
transmit-IsTraced (buf ∷ rest) sent io t =
    either-IsTraced (not io.connected || io.shutting_down)
      (record io { transmitting = false; in_flight = none; wqueue = buf ∷ rest })
      (record io { transmitting = true; in_flight = some buf; wqueue = rest }) t
      (record {
        order = t.order;
        idle = λ h. cc;
        posted = t.posted;
        written = t.written;
        counted = omega (arith, t.counted);
        in_range = t.in_range;
      })

completed-order :
    (ok : Bool) (buf : List ℕ) (sent : List (List ℕ)) (io : SeastarIo)
    → io.in_flight ≡ some buf
    → IsTraced sent io
    → sent ≡ blocks (io.outcomes ++ ((ok, buf) ∷ [])) ++ io.wqueue
completed-order ok buf sent io e t =
    t.order
    ∙ (ap (λ f. blocks io.outcomes ++ (flying f ++ io.wqueue)) e
        ∙ (sym (append_assoc (blocks io.outcomes) (buf ∷ []) io.wqueue)
            ∙ ap (λ l. l ++ io.wqueue) (sym (blocks-append io.outcomes ((ok, buf) ∷ [])))))

pub write_completes-IsTraced :
    (ok : Bool) (buf : List ℕ) (sent : List (List ℕ)) (io : SeastarIo)
    → io.in_flight ≡ some buf
    → IsTraced sent io
    → IsTraced sent (write_completes ok buf io)
unfolding write_completes
write_completes-IsTraced true buf sent io e t =
    let size : io.queue_size ≡ total (refused io.outcomes) + (length buf + total io.wqueue) =
      omega (arith, t.counted, ap (λ f. total (flying f)) e) in
    transmit-IsTraced io.wqueue sent
      (record io {
        outcomes = io.outcomes ++ ((true, buf) ∷ []);
        queue_size =
            io.queue_size - (if leb io.queue_size (length buf) then io.queue_size else length buf);
        log_sent_cnt = add64 io.log_sent_cnt 1;
      })
      (record {
        order = completed-order true buf sent io e t;
        idle = λ h. refl;
        posted = t.posted;
        written = ground (arith, t.written, count_ok-append io.outcomes true buf);
        counted = ground (arith, size, total-refused-append io.outcomes true buf);
        in_range = ground (arith, t.in_range);
      })
write_completes-IsTraced false buf sent io e t =
    transmit-IsTraced io.wqueue sent
      (record io {
        outcomes = io.outcomes ++ ((false, buf) ∷ []);
        transmitting = false;
        connected = false;
      })
      (record {
        order = completed-order false buf sent io e t;
        idle = λ h. refl;
        posted = t.posted;
        written = ground (arith, t.written, count_ok-append io.outcomes false buf);
        counted = omega (
          arith,
          t.counted,
          ap (λ f. total (flying f)) e,
          total-refused-append io.outcomes false buf,
        );
        in_range = t.in_range;
      })

-- A block that `send` takes stands at the end of the queue.
unfoldable pub pushed : List ℕ → SeastarIo → SeastarIo
pushed buf io = record io {
  log_posted_cnt = add64 io.log_posted_cnt 1;
  queue_size = add64 io.queue_size (length buf);
  wqueue = io.wqueue ++ (with_length buf ∷ []);
}

pub pushed-IsTraced :
    (buf : List ℕ) (sent : List (List ℕ)) (io : SeastarIo)
    → 4 ≤ length buf
    → io.queue_size + length buf < mod64
    → IsTraced sent io
    → IsTraced (sent ++ (with_length buf ∷ [])) (pushed buf io)
unfolding pushed
pushed-IsTraced buf sent io h small t = record {
  order =
      ap (λ l. l ++ (with_length buf ∷ [])) t.order
      ∙ (append_assoc (blocks io.outcomes) (flying io.in_flight ++ io.wqueue) (with_length buf ∷ [])
          ∙ ap (λ l. blocks io.outcomes ++ l)
              (append_assoc (flying io.in_flight) io.wqueue (with_length buf ∷ [])));
  idle = t.idle;
  posted = ground (arith, t.posted, length-append sent (with_length buf ∷ []));
  written = t.written;
  counted = omega (
    arith,
    t.counted,
    small,
    total-append io.wqueue (with_length buf ∷ []),
    length-with_length buf h,
  );
  in_range = omega (arith, small);
}

pub idle-IsTraced :
    (sent : List (List ℕ)) (io : SeastarIo)
    → io.transmitting ≡ false
    → IsTraced sent io
    → IsTraced sent (record io { transmitting = false; in_flight = none })
idle-IsTraced sent io e t =
    let none_left : io.in_flight ≡ none = t.idle e in
    record {
      order = t.order ∙ ap (λ f. blocks io.outcomes ++ (flying f ++ io.wqueue)) none_left;
      idle = λ h. refl;
      posted = t.posted;
      written = t.written;
      counted = omega (arith, t.counted, ap (λ f. total (flying f)) none_left);
      in_range = t.in_range;
    }
