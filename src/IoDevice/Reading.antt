-- ===== src/IoDevice/Reading.antt =====
-- Reading delivers everything that the kernel has, once and in order.
use transport_cpp.Prelude.{
  ℕ, zero, suc, ◌+◌, ◌<◌, ◌≡◌, refl, ◌≢◌, true, some, List, [], ◌∷◌, ◌++◌, length, append_assoc,
  append-nil, arith, ◌∙◌, sym,
}
use transport_cpp.Int.{negsuc}
use transport_cpp.Types.{PollFd, Bytes, ErrorCode, internal, ok}
use transport_cpp.Os.{Os, Outcome, value, failed}
use transport_cpp.World.{World}
use transport_cpp.IoDevice.Receive.{
  ReadData, first_error, read_loop, read_from, read_io_data, buffer_size, sync_receive,
  receive_entry, ready_read,
}

-- The pieces that successive reads of a handle give, up to the one that fails or is empty.
abbrev pub Feeds : {S : Type 0} → Os S → ℕ → List Bytes → Outcome Bytes × S → S → Type 0
Feeds os h [] (failed errno, s) end = s ≡ end
Feeds os h [] (value [], s) end = s ≡ end
Feeds os h [] (value (b ∷ bs), s) end = ⊥
Feeds os h (c ∷ cs) (failed errno, s) end = ⊥
Feeds os h (c ∷ cs) (value b, s) end =
    (b ≢ []) × (b ≡ c) × Feeds os h cs (os.read h buffer_size s) end

abbrev pub concat : List Bytes → Bytes
concat [] = []
concat (c ∷ cs) = c ++ concat cs

module _ {S : Type 0} (os : Os S) where
  -- A piece that is fed is not empty.
  pub Feeds-first :
      (h : ℕ) (c : Bytes) (cs : List Bytes) (r : Outcome Bytes × S) (end : S)
      → Feeds os h (c ∷ cs) r end
      → (b : ℕ) × (bs : Bytes) × (c ≡ b ∷ bs)
  Feeds-first h c cs (failed errno, s) end k = absurd k
  Feeds-first h c cs (value [], s) end k = absurd (k.0 refl)
  Feeds-first h c cs (value (b ∷ bs), s) end k = (b, bs, sym k.1)

  pub read_loop-Feeds :
      (fuel h : ℕ) (acc : Bytes) (cs : List Bytes) (r : Outcome Bytes × S) (end : S)
      → length cs < fuel
      → Feeds os h cs r end
      → read_loop os fuel h acc r ≡ some (acc ++ concat cs, end)
  unfolding read_loop
  read_loop-Feeds zero h acc cs r end f k = absurd (omega arith)
  read_loop-Feeds (suc fuel) h acc [] (failed errno, s) end f k = rw (k, append-nil)
  read_loop-Feeds (suc fuel) h acc [] (value [], s) end f k = rw (k, append-nil)
  read_loop-Feeds (suc fuel) h acc [] (value (b ∷ bs), s) end f k = absurd k
  read_loop-Feeds (suc fuel) h acc (c ∷ cs) (failed errno, s) end f k = absurd k
  read_loop-Feeds (suc fuel) h acc (c ∷ cs) (value [], s) end f k = absurd (k.0 refl)
  read_loop-Feeds (suc fuel) h acc (c ∷ cs) (value (b ∷ bs), s) end f k = rw (← k.1) (
      read_loop-Feeds fuel h (acc ++ b ∷ bs) cs (os.read h buffer_size s) end (omega arith) k.2
      ∙ rw append_assoc)

  -- `readIOData` returns all the pieces in one, and no error, however the last read ends.
  pub read_io_data-Feeds :
      (fuel d h : ℕ) (c : Bytes) (cs : List Bytes) (w : World S) (end : S)
      → (w.devices d).handle ≡ some h
      → length cs + 1 < fuel
      → Feeds os h (c ∷ cs) (os.read h buffer_size w.sys) end
      → read_io_data os fuel d w
        ≡ some (
          record {
            error = record { code = internal ErrorCode.no_error; description = "" };
            bytes = concat (c ∷ cs);
          },
          record w { sys = end },
        )
  unfolding read_io_data
  read_io_data-Feeds fuel d h c cs w end has f k = ground (
    arith,
    first_read (os.read h buffer_size w.sys) k,
    read_loop-Feeds fuel h [] (c ∷ cs) (os.read h buffer_size w.sys) end,
  )
    where
      first_read :
          (r : Outcome Bytes × S) → Feeds os h (c ∷ cs) r end → (b : Bytes) × (r.0 ≡ value b)
      first_read (failed errno, s) k = absurd k
      first_read (value b, s) k = (b, refl)

  -- When the first read fails or gives nothing, `readIOData` returns no bytes.
  pub read_io_data-nothing :
      (fuel d h : ℕ) (w : World S) (end : S)
      → (w.devices d).handle ≡ some h
      → Feeds os h [] (os.read h buffer_size w.sys) end
      → (r : ReadData) × (read_io_data os (suc fuel) d w ≡ some (r, record w { sys = end }))
        × (r.bytes ≡ [])
  unfolding read_io_data read_loop
  read_io_data-nothing fuel d h w end has f =
      let (r, e, b) = ended (os.read h buffer_size w.sys) f in (r, rw (has, read_io_data) e, b)
    where
      ended :
          (o : Outcome Bytes × S)
          → Feeds os h [] o end
          → (r : ReadData) × (read_from os (suc fuel) h o w ≡ some (r, record w { sys = end }))
            × (r.bytes ≡ [])
      ended (failed errno, s) f =
          (record { error = first_error (failed errno); bytes = [] }, rw f refl, refl)
      ended (value [], s) f =
          (record { error = first_error (value []); bytes = [] }, rw f refl, refl)
      ended (value (b ∷ bs), s) f = absurd f

  -- `readyRead` hands the callback everything that the handle has, in order and in one piece, when
  -- the first read gives something.
  pub ready_read-delivers :
      (callback : ℕ → Bytes → World S → World S) (fuel d h : ℕ) (c : Bytes) (cs : List Bytes)
      (w : World S) (end : S)
      → (w.devices d).handle ≡ some h
      → (w.io d).has_callback ≡ true
      → length cs + 1 < fuel
      → Feeds os h (c ∷ cs) (os.read h buffer_size w.sys) end
      → ready_read os callback fuel d w
        ≡ some (callback d (concat (c ∷ cs)) (record w { sys = end }))
  unfolding ready_read
  ready_read-delivers callback fuel d h c cs w end has set f k =
      ground (arith, read_io_data-Feeds fuel d h c cs w end has f k)

  -- When the first read fails, `readyRead` does not call the callback.
  pub ready_read_failure :
      (callback : ℕ → Bytes → World S → World S) (fuel d h errno : ℕ) (w : World S) (s : S)
      → (w.devices d).handle ≡ some h
      → os.read h buffer_size w.sys ≡ (failed errno, s)
      → ready_read os callback (suc fuel) d w ≡ some (record w { sys = s })
  unfolding ready_read
  ready_read_failure callback fuel d h errno w s has r = ground arith

  -- `syncReceive` returns OK with everything that the handle has, in order, when `poll` reports the
  -- handle and the first read gives something.
  pub sync_receive-delivers :
      (fuel d h n : ℕ) (c : Bytes) (cs : List Bytes) (fds : List PollFd) (s : S) (w : World S)
      (end : S)
      → (w.devices d).handle ≡ some h
      → os.poll (receive_entry h ∷ []) (negsuc 0) w.sys ≡ (value (suc n), fds, s)
      → length cs + 1 < fuel
      → Feeds os h (c ∷ cs) (os.read h buffer_size s) end
      → sync_receive os fuel d w
        ≡ some (record { code = ok; bytes = some (concat (c ∷ cs)) }, record w { sys = end })
  unfolding sync_receive
  sync_receive-delivers fuel d h n c cs fds s w end has p f k =
      ground (arith, read_io_data-Feeds fuel d h c cs (record w { sys = s }) end has f k)
