-- ===== src/Jitter/Copy.antt =====
-- The copying loop of `readFrames` in core/src/JitterBuffer.cpp.
use sync_bluetooth_devices.Common.{
  ℕ, ◌+◌, ◌-◌, ◌*◌, ◌%◌, ◌^◌, List, [], ◌∷◌, ◌++◌, ltb, leb, if◌then◌else◌, min, max, take, drop,
}
use sync_bluetooth_devices.Jitter.Store.{BufferedPacket, end_frame}

-- `std::copy_n(source.begin() + from, count, output.begin() + to)`
unfoldable pub copy_n : List ℕ → ℕ → ℕ → List ℕ → ℕ → List ℕ
copy_n source from count output to =
    take to output ++ (take count (drop from source) ++ drop (to + count) output)

-- The loop over the packets, with the output and the frames copied so far.
unfoldable pub copy_packets : ℕ → ℕ → ℕ → List BufferedPacket → List ℕ → ℕ → List ℕ × ℕ
unfolding copy_n
copy_packets channels start requested_end [] output copied = (output, copied)
copy_packets channels start requested_end (p ∷ ps) output copied =
    let skip = copy_packets channels start requested_end ps output copied in
    let copy_start = max start p.start_frame in
    let copy_end = min requested_end (end_frame p) in
    let frames = copy_end - copy_start in
    let source_offset = (copy_start - p.start_frame) * channels in
    let destination_offset = (copy_start - start) * channels in
    let copy =
      copy_packets channels start requested_end ps
        (copy_n p.samples source_offset (frames * channels) output destination_offset)
        ((copied + frames) % 2 ^ 32) in
    if leb (end_frame p) start
    then skip
    else if leb requested_end p.start_frame
    then (output, copied)
    else if ltb copy_start copy_end
    then copy
    else skip
