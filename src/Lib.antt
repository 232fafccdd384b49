-- ===== src/Lib.antt =====
-- A model of the bridge between System Fusion, DMR and EchoLink, and what makes it correct.
--
-- The program is one process around a select loop (ysf2dmrcon.c). It keeps a connection to a DMR
-- master (peer_dmr.c), one to a YSF reflector (peer_ysf.c), and a bridge between the two
-- (bridge.c), which builds and reads the packets of both with the codecs of hbp/dmr_hbp.c and
-- ysf_fich.c.
--
-- PeerDmr models peer_dmr.c: State is its struct with the globals that stand for the link, Login
-- one function per C function, Session the runs of ticks and packets with the invariant of the
-- login, Complete and Keepalive its runs against a master that answers, is silent or refuses,
-- Layout the packet RPTC.
-- Hbp models the burst codec of hbp/dmr_hbp.c: Tables, Bits, Bptc, Header for the data-sync bursts,
-- Embedded for the link control in voice bursts, Sha256 for the digest of the login; Bptc.Read and
-- Embedded.Read are what a receiver reads, Sha256.Schedule the rounds of the standard.
-- Bridge models bridge.c: State is its struct, Dmrd the packet tests, Send bridge_send_dmrd, Wire
-- what a receiver reads from a packet, Wire.Voice what it reads of the voice, Wire.Kinds the
-- bridge's own tests of it, ConnectPtt the connect PTT with its frames (Stream), its sessions
-- (Session) and the polls that run it (Whole), Call the packets of a DMR call, as far as the codec
-- converter, with what it is given (Relay), and what is sent to DMR of what it gives (Emit); Ysf
-- the frames of a YSF call with its talker (Talker, Receive), as far as the converter (Relay), what
-- is sent to YSF and the calls of the main loop (Send), what another bridge makes of a frame
-- (Rooms, Heard), and the start of the bridge with its talker alias (Start).
-- TalkerAlias models talker_alias.c, with SevenBit and Text on what it reads.
-- Fich models ysf_fich.c: Tables, Golay and Convolution are the codes of the frame information
-- channel, with what the encoder writes (Encoder), the decisions of the Viterbi decoder (Decisions,
-- Tracking) and the walk back over them (Chainback, Decode); Frame is fich_encode and fich_decode,
-- Fields the setters and the functions that the connections call, Activation the activation burst,
-- whose frames Activation.Spec lists on their own.
-- PeerYsf models peer_ysf.c: State is its struct, Link one function per C function, Session the
-- runs of the main loop, Reconnect what a silent reflector leads to.
-- ElProxy models el_proxy.c, the connection through which an EchoLink station behind a proxy sends
-- and receives: State is its struct, Receive takes messages out of the stream, Send writes them,
-- Channel is the directory channel, Connect the set-up; Frames, Stream and its children say what
-- the stream means, Directory what the directory buffer does, Sent what comes of a send, Room how
-- full it gets.
-- Vocoder models vocoder_remote.c, the client of the server that codes speech: State is its struct
-- with the counters, Frame the two orders of a frame's bits, Exchange a request with its answer,
-- Speech encoding and decoding; Transcode is what comes of both together, Waits and Bounded how
-- long a call waits.
-- Prelude has the tests, lists, words and bit lemmas that the parts share.
--
-- State is passed explicitly, and an operation is a function from state to state. A packet is the
-- list of its bytes, and a packet sent is put in front of the list `sent`. A C string is the list
-- of its characters. An `int` id, talkgroup or counter is a natural number, since the configuration
-- is checked to have none below 1; a byte or word wraps with `% 2 ^ w`. A clock is read once per
-- call and is an argument. The padding of a transmission runs on fuel 6, enough for the five frames
-- that a superframe can lack; the loops of get_syndrome_23127 run on fuel 13 and 23, enough for
-- patterns of 23 bits (Golay.Syndrome); an id is printed on fuel 10, one for each digit of a number
-- below 10^10. parse_acc_locked runs on fuel, one more than the bytes in the buffer, of which a
-- round takes nine at least; a socket's answers to the reads and writes of one call are a list.
--
-- Outside the model, as parameters: rand(), the subscriber database, toupper(), the codec under
-- mmdvm/ (its calls are logged, its answers are arguments) and the bytes of the stack that are sent
-- uninitialised. The theorems on the login hold for any hash in the place of SHA-256. Sockets,
-- logging and the configuration file are left out, and so are the EchoLink peer and its bridge. MD5
-- and toupper are parameters of ElProxy. An array that ysf_fich.c leaves uninitialised is an
-- argument.
pub mod Prelude
pub mod Hbp
pub mod PeerDmr
pub mod PeerYsf
pub mod ElProxy
pub mod Vocoder
pub mod TalkerAlias
pub mod Fich
pub mod Bridge
