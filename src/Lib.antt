-- ===== src/Lib.antt =====
-- The program is tedium: eight T1 lines on a framer chip (XRT86VX38), an FPGA with a soft core and
-- a USB connection, and a host tool that exchanges the frames and watches the lines. Modelled is
-- its Rust code: the register crate of the chip (xrt86vx38-pac), the firmware of the soft core
-- (tedium-soc) and the host tool (tedium/tools/tedium-tool).
--
-- How the parts interact. The firmware reads the chip's registers by the addresses and bit fields
-- of the register crate. For each channel in turn it reads the interrupt register BISR and puts a
-- report into a USB endpoint; the host parses the report. Requests of the host to read and write
-- registers come to it by another endpoint. The audio frames go between the FPGA and the host by
-- isochronous transfers: a received packet is split into frames for two consumers, the audio
-- processor, which makes the frames that are sent, and the signaling processor, which collects the
-- robbed bits of each timeslot and feeds the DTMF detectors. The interrupt reports and the events
-- of the signaling processor come to a monitor, which keeps the state of each line. Before that the
-- firmware configures the chip and enables its interrupts; loopback modes are set by the host.
--
-- The files, by part. A Rust function keeps its name in the model; a panic (a failed assertion,
-- unreachable!(), an unwrap, an index out of bounds, an overflow) is a value of Outcome, or none in
-- the codec.
-- - Common: helpers on the native numbers, lists, bits, finite tables; Outcome; a type of integers.
-- - Float: the operations on f32 and Complex<f32> as a parameter. For the choice of a key the
--   comparison is taken to be dual and transitive, as PartialOrd documents; else nothing is
--   assumed.
-- - Codec.Ulaw (tedium/tools/tedium-tool/src/codec/ulaw.rs): decode_i16, encode_i14, encode, decode
--   and the two G.191 reference routines.
-- - Detector (tedium/tools/tedium-tool/src/detector): Goertzel is goertzel.rs; Group, StateMachine
--   and Dtmf are the parts of dtmf.rs. sort_by is a stable insertion sort; Dtmf.Verdict says what
--   detect finds in the powers, by the strongest tones (Dtmf.Sort, Dtmf.Strongest).
-- - Registers (xrt86vx38-pac/src/register.rs): a bit-field struct X is the list X_layout of its
--   members, the first at the most significant bit. The getters and setters are those of the crate
--   modular_bitfield_msb, the parameter Bitfield with its law. Values has the enumerations of field
--   values, Builder and Lens what a chain of setters and a get after a set come to, Enumerations
--   which field holds which enumeration.
-- - Device (xrt86vx38-pac/src/device.rs): Addressing with its assertions, the accessors of Channel
--   and Timeslot by name (Offsets) and by index (Accessors; Pages has the place of each in the page
--   of its channel), the registers of the whole chip (Globals) and the iterators. Access is the
--   typed access to a register by read, write and modify over the trait Xyz as a parameter; a
--   Script is a list of raw accesses, and Memory a chip that keeps what is written.
-- - Interrupt (tedium/tools/tedium-tool/src/framer/interrupt.rs): the host's parser. Wire is the
--   format of the report, written without regard to either program.
-- - Firmware (tedium-soc/src): Report is the part of the main loop of main.rs from the read of BISR
--   to the last byte that is put into the FIFO, over a chip that is a parameter and may change at
--   each read (Report.Snapshot is what the status shows of a chip whose registers keep their
--   values); Configuration is configure, configure_channel, configure_timeslot and, in Interrupts,
--   enable_interrupts, with the tables of what they are to do in Script; Request is
--   parse_host_request over an endpoint that is a parameter; Service is the service of a request in
--   the main loop, over peripherals that are a parameter; Uart is the hexadecimal output of
--   uart.rs.
-- - Signaling (tedium/tools/tedium-tool/src/framer/audio.rs): RobbedBitFrame, RobbedBitDebouncer,
--   FrameCountDiscontinuityMonitor, ExtendedSuperFrameState, and the signaling processor
--   (Processor). A 32-bit frame count wraps as in the source.
-- - Audio (the same file, and tedium/tools/tedium-tool/src/generator): AudioProcessor and the
--   tones. The messages that are there when a frame is processed are a list.
-- - Receive (the same file): RxPacket (Packet, with the format of its bytes) and RxPacketProcessor
--   over ring buffers that are a parameter; the receiver of the debug channel is taken to be there.
-- - Exchange (the same file): LoopbackFrameHandler, with handle_in (Inward) and handle_out
--   (Outward).
-- - Line (tedium/tools/tedium-tool/src/main.rs): LineStateInterrupt, LineStateRobbedBitState and
--   monitor.
-- - TestModes (tedium/tools/tedium-tool/src/framer/test.rs): the loopback modes.
--
-- Bounds and fuel. All numbers are unbounded, with the wrap-around or the overflow of the source
-- written out. Fuel is in the codec: the number of binary digits of a u16 and the segment loop of
-- the G.191 encoder take 16 rounds, as many as the word has bits; and in what drains an iterator of
-- timeslots or channels, and in the loop that empties the queue of unprocessed frames, which need
-- one round more than there are elements. Every other loop is structural, on a list or on the count
-- of its rounds.
--
-- Not modelled: the arithmetic of f32; libusb, threads, channels and ring buffers, beyond what they
-- are documented to do; the register dump of the firmware and the order of the parts of its main
-- loop; the layout of the packets that are sent and the transfers themselves; the copies of
-- device.rs and register.rs in the tool, which differ from the crate's in the way a register is
-- reached; printing and the command line; the gateware (Python) and the hardware.
pub mod Audio
pub mod Codec
pub mod Common
pub mod Detector
pub mod Device
pub mod Exchange
pub mod Firmware
pub mod Float
pub mod Interrupt
pub mod Line
pub mod Receive
pub mod Registers
pub mod Signaling
pub mod TestModes
