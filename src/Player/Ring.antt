-- ===== src/Player/Ring.antt =====
-- The ring between `prefetch` and `dataCallback` of desktop/src/DesktopAudioPlayer.cpp. A cell holds
-- one frame, as a number, where the code moves `bytesPerFrame_` bytes. Each thread goes from one
-- access of a shared atomic to the next in one step, and the steps of the two come in any order; only
-- the stores at the end of the callback and its look at `decoderFinished_` between them are one step. What
-- the decoder returns is an argument; the two lists of the frames that came from the decoder and
-- that went to the device are for the theorems only.
pub mod Around
pub mod Valid
pub mod Steps
pub mod Order
pub mod Race
pub mod Drain
use sync_bluetooth_devices.Common.{
  ℕ, ◌+◌, ◌-◌, ◌%◌, ◌^◌, Bool, true, false, ◌&&◌, ◌||◌, not, List, [], ◌∷◌, ◌++◌, take, drop,
  length, min, ltb, ◌==◌, if◌then◌else◌,
}

-- Where `prefetch` stands: before its loads; in the decoder, with the request; before it publishes
-- `count` frames; before it says that the decoder is done; behind its loop.
pub data Producer : Type 0 where
  looping exhausted stopped : Producer
  decoding : ℕ → Producer
  publishing : ℕ → Bool → Producer

-- Where `dataCallback` stands: outside; with `written - read` frames at hand, of which it copies
-- `count`; behind the copy of `count` of them.
pub data Consumer : Type 0 where
  outside : Consumer
  copying : ℕ → Bool → Consumer
  copied : ℕ → Bool → Consumer

pub record PlayerRing : Type 0 where
  pub cells : List ℕ
  pub capacity : ℕ
  pub read_frame : ℕ
  pub written_frame : ℕ
  pub decoder_finished : Bool
  pub end_reached : Bool
  pub submitted_frames : ℕ
  pub producer : Producer
  pub consumer : Consumer
  pub decoded : List ℕ
  pub played : List ℕ

-- The ring of `playFrom` at a frame; `resize` keeps what was in the cells.
unfoldable pub player_ring : List ℕ → ℕ → ℕ → PlayerRing
player_ring cells capacity frame = record {
  cells = cells;
  capacity = capacity;
  read_frame = 0;
  written_frame = 0;
  decoder_finished = false;
  end_reached = false;
  submitted_frames = frame;
  producer = looping;
  consumer = outside;
  decoded = [];
  played = [];
}

-- The first loads of `prefetch` and the request that it makes, if there is room.
unfoldable pub request_frames : PlayerRing → PlayerRing
request_frames s =
    let available = s.capacity - (s.written_frame - s.read_frame) in
    let contiguous = s.capacity - s.written_frame % s.capacity in
    if available == 0
    then s
    else record s { producer = decoding (min (min available contiguous) 4096) }

-- The decoder writes its frames into the ring at `at`.
unfoldable pub write_at : List ℕ → ℕ → List ℕ → List ℕ
write_at cells at frames = take at cells ++ (frames ++ drop (at + length frames) cells)

unfoldable pub decode : ℕ → List ℕ → Bool → PlayerRing → PlayerRing
decode request frames succeeded s = record s {
  cells = write_at s.cells (s.written_frame % s.capacity) frames;
  decoded = s.decoded ++ frames;
  producer = publishing (length frames) (not succeeded || ltb (length frames) request);
}

unfoldable pub publish : ℕ → Bool → PlayerRing → PlayerRing
publish count last s = record s {
  written_frame = (s.written_frame + count) % 2 ^ 64;
  producer = if last then exhausted else looping;
}

unfoldable pub finish : PlayerRing → PlayerRing
finish s = record s { decoder_finished = true; producer = stopped }

-- The first loads of `dataCallback` behind its early returns: the frames to copy, and whether
-- `read + framesRead == written`.
unfoldable pub take_frames : ℕ → PlayerRing → PlayerRing
take_frames frame_count s =
    let frames_read = min frame_count (s.written_frame - s.read_frame) in
    record s { consumer = copying frames_read (s.read_frame + frames_read == s.written_frame) }

-- The two copies out of the ring.
unfoldable pub read_at : List ℕ → ℕ → ℕ → ℕ → List ℕ
read_at cells capacity read frames_read =
    let first = min frames_read (capacity - read % capacity) in
    take first (drop (read % capacity) cells) ++ take (frames_read - first) cells

unfoldable pub copy_out : ℕ → Bool → PlayerRing → PlayerRing
copy_out frames_read drained s = record s {
  played = s.played ++ read_at s.cells s.capacity s.read_frame frames_read;
  consumer = copied frames_read drained;
}

-- The stores at the end of `dataCallback`, with its look at the decoder's flag.
unfoldable pub release : ℕ → Bool → PlayerRing → PlayerRing
release frames_read drained s = record s {
  read_frame = (s.read_frame + frames_read) % 2 ^ 64;
  submitted_frames = (s.submitted_frames + frames_read) % 2 ^ 64;
  end_reached = s.end_reached || (s.decoder_finished && drained);
  consumer = outside;
}

-- What one of the threads does next; the decoder returns at most what was requested, and the device
-- asks for a number of frames.
pub data Action : Type 0 where
  produces : List ℕ → Bool → Action
  consumes : ℕ → Action

unfoldable pub produce : Producer → List ℕ → Bool → PlayerRing → PlayerRing
produce looping frames succeeded s = request_frames s
produce (decoding request) frames succeeded s = decode request (take request frames) succeeded s
produce (publishing count last) frames succeeded s = publish count last s
produce exhausted frames succeeded s = finish s
produce stopped frames succeeded s = s

-- After the end the callback plays nothing more.
unfoldable pub consume : Consumer → ℕ → PlayerRing → PlayerRing
consume outside frame_count s = if s.end_reached then s else take_frames frame_count s
consume (copying count drained) frame_count s = copy_out count drained s
consume (copied count drained) frame_count s = release count drained s

unfoldable pub step : PlayerRing → Action → PlayerRing
step s (produces frames succeeded) = produce s.producer frames succeeded s
step s (consumes frame_count) = consume s.consumer frame_count s

unfoldable pub run : PlayerRing → List Action → PlayerRing
run s [] = s
run s (a ∷ rest) = run (step s a) rest
