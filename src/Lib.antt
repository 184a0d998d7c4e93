-- ===== src/Lib.antt =====
-- A model of Iriseus for Windows: the program that turns a phone into a webcam, pairs with it, and
-- exchanges files with it.
--
-- The parts and how they interact. The phone opens a WebSocket for control messages
-- (src/core/WsServer.cpp keeps the sessions, src/core/WsSession.cpp reads, dispatches and writes), a TCP
-- connection for the H.264 stream (src/core/StreamReceiver.cpp) and one for each file
-- (src/core/FileTransferServer.cpp). src/core/FileTransferManager.cpp answers the messages about files and
-- registers transfers at the server; src/core/PairingManager.cpp answers pair requests;
-- src/core/AdbManager.cpp forwards the three ports over USB. src/core/VideoDecoder.cpp puts each frame of
-- the stream on a canvas, which src/core/VirtualCamera.cpp shows as a webcam. src/app/Application.cpp makes
-- the parts and connects them: what a phone asks for reaches the settings, the stream and
-- src/ui/TrayIcon.cpp as tasks for the thread of Qt.
--
-- Which file models which part:
--   Prelude: Boolean tests, lists, bytes and association lists; std::unordered_map is an association
--     list whose entries a search meets in some order.
--   Net, Wire: readExact and the length prefix, which the stream and the files share. The socket is an
--     interface: a read gives a piece of what is to come, as large as the network likes.
--     Net/Segments is such a socket. Net/Acceptor is the acceptor, another interface.
--   Stream: StreamReceiver. Each turn of the network thread, of the decoder thread and of stop is a
--     step, and a run is any list of turns. Stream/Starts has start and stop with the acceptor.
--   Transfer/Hex, Files, Sessions, Upload, Download, Connection: FileTransferServer, from toHex and the
--     free file name to handleConnection. The disk, the hash and file names are interfaces with the
--     documented behaviour that the code relies on. Control says what other threads do meanwhile.
--   Transfer/Disk, Transfer/Server: the same server with all its threads. A path of the disk names a
--     file, and a stream keeps the file that it opened. A connection's thread is a stage with its
--     variables, and each turn touches the shared state once; start, stop, acceptLoop,
--     registerTransfer and cancelTransfer are steps between the turns, and a run is any list of
--     steps.
--   Manager, Manager/Handlers: FileTransferManager, and the offer of src/core/FileTransferProtocol.h.
--   Manager/Exchange: a connection together with the callback onFinished of FileTransferManager.
--   Pairing: PairingManager, deriveShared of src/core/PairingCrypto.cpp, formatPin of
--     src/ui/PairingDialog.cpp. libsodium is an interface.
--   Json, Messages: nlohmann::json as an interface, and src/core/MessageDispatcher.h.
--   Ws/Writer, Ws/Dispatch, Ws/Life, Ws/Server: WsSession and WsServer; Ws/Life is a session from its
--     handshake to the error that ends it; Ws/Server/Starts has start and stop with the acceptor.
--   Adb: listDevices and a round of monitorLoop; Adb/Polls the rounds between starts and stops,
--     Adb/Pipe the output of a run of adb, Adb/Commands the command lines, Adb/Extract the extraction
--     of adb from the resources of the program.
--   Video: VideoDecoder, from init to the canvas that its callback gets. Floating point and libswscale
--     are interfaces; the frames that libavcodec gives are a list, in Video/Nalus those of an
--     interface. The flag of the mirrored picture stays as it is while frames are shown.
--   Camera: VirtualCamera, and the callback for frames that StreamReceiver::start sets.
--   Stream/Flip: setFlipHorizontal and flipHorizontal of StreamReceiver.
--   Mdns: src/core/MdnsService.cpp, from getLocalIp to runLoop.
--   Tray: TrayIcon. A text of Qt is the list of its code points.
--   App, App/Calls, App/Steps: Application, with the window of src/ui/PairingDialog.cpp. init is a chain of
--     stages, between which messages of phones can come; a task of the thread of Qt runs when init
--     is through; a broadcast that was posted waits for its turn on the server's thread.
--   Examples: libraries that meet the interfaces, and the theorems at concrete inputs.
--
-- Correspondence. Definitions have the names of the functions and fields, in this language's
-- spelling. The state of a loop is a record of its variables, an early return is a branch, an
-- exception that leaves a handler is none. Machine integers are natural numbers with the wrap-around
-- written out where the code can reach it.
--
-- Fuel. read_exact_loop has one round more than bytes are asked for, since a round reads one or more;
-- receive_chunks one more than bytes are to come, since a round takes a frame; send_chunks one more
-- than the file has bytes; free_name_loop two more than there are files, since every taken name is
-- a file; hash_loop one more than the file has bytes.
-- The loops of Video, Mdns, Camera and App run over lists and counts and need no fuel. In
-- Transfer/Server the loops are turns of a thread, so that a run of any length is a list of steps.
--
-- Not modelled: libavcodec, libswscale, softcam.dll, mdns.h and Qt's widgets, which are
-- interfaces, arguments or records of what was called; src/main.cpp; the processes of
-- AdbManager::runAdb; threads below the level of a critical section, of a handler or of one use
-- of the disk; links between files; names with place markers such as %1, which QString::arg would
-- expand; texts of JSON that are not valid UTF-8, which QString would change; the bytes that
-- a write of WsSession puts on the connection, whose buffer is a local variable that is gone before
-- the write ends. In Transfer/Upload and Transfer/Download the other threads do no more to the files
-- of the transfer than remove the temporary one; Transfer/Server has all that they do.
pub mod Prelude
pub mod Net
pub mod Wire
pub mod Stream
pub mod Json
pub mod Pairing
pub mod Messages
pub mod Ws
pub mod Transfer
pub mod Manager
pub mod Adb
pub mod Examples
pub mod App
pub mod Camera
pub mod Mdns
pub mod Tray
pub mod Video
