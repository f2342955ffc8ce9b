-- ===== src/Lib.antt =====
-- Verification of uenclient, a client for file sharing with a chat: src/ of the repository.
--
-- The parts of the program and how they interact. A torrent file is bencoded; the parser gives its
-- dictionary, and the bytes of its info section, whose hash names the torrent. The torrent client
-- asks its peers for the pieces, each peer through a peer wire client, which speaks the protocol on a
-- socket of its own; the rate controller tells those clients how many bytes to move. Pieces are
-- stored by the file manager, which lays the torrent's files one behind the other. The tracker client
-- finds the peers; the torrent server takes the connections of others and gives each to its torrent.
--
-- Common: numbers, lists, byte arrays and their lemmas.
--
-- Bencode: src/bencodeparser.cpp.
--   Bencode/Value is what the parser returns: QVariant as a data type, QMap as an association list
--   with insertion. Bencode/Parser has one function for each method (getByteString is
--   get_byte_string, getDictionary is get_dictionary with dictionary_loop for its loop); the
--   parser's members are the record State, with the content that is still to be read in it. A method
--   returns done, or refused for false, or fault where it reads past the end of the content or
--   exceeds an int, which C++ leaves undefined. The recursive descent is on fuel, three for each byte
--   of the content and a few more. Bencode/Encoding is the bencoding, written down independently; it
--   is not src/bencoder.cpp, which no other code uses.
--
-- PeerWire: src/peerwireclient.cpp and src/peerwireclient.h.
--   PeerWire/Client is the state, with one field for each member; the flags of pwState are four
--   fields. Timers are numbers, and the running ones are a list. PeerWire/Messages has the methods
--   that send, PeerWire/Incoming processIncomingData with a function for each case of its switch,
--   PeerWire/Transfer writeToSocket, readFromSocket, the speeds and timerEvent. The slots that are
--   connected to the client's signals are a parameter, Slots: they see the signal and may change the
--   client, as the source's slots do through its methods. The socket is a parameter too. Loops are on
--   fuel: one for each byte allowed or each byte in the buffer, and one more. PeerWire/Protocol has
--   the messages as a data type, how each stands on the wire and what a client does on it.
--   Not modelled: setPeer, setReadBufferSize and the forwarding to the inner socket, which are glue.
--
-- FileManager: src/filemanager.cpp.
--   FileManager/Disk is an interface of files, with what the documentation of QFile says of opening,
--   reading and writing. FileManager/Blocks has readBlock and writeBlock, with the member quit false.
--   FileManager/Requests has the requests, the verification and the parts of the loop of run; a hash
--   is a parameter. FileManager/Generate has generateFiles, on the members of MetaInfo, over an
--   interface of its own. Not modelled: the members that only return a field.
--
-- RateController: src/ratecontroller.cpp.
--   RateController/Sockets is what a tick asks of a client, RateController/Transfer the tick, with a
--   list for the set of sockets; an overflow of the budgets has no value. The outer loop is on fuel,
--   one for each byte of the budgets. RateController/Peers fills the interface with the peer wire
--   client. RateController/Members has addSocket, removeSocket and setDownloadLimit, with the read
--   buffers.
--
-- TorrentClient: src/torrentclient.cpp.
--   TorrentClient/State is the state: a client is known by its number and a piece by its index, where
--   the source has pointers; what the file manager is asked to do is a list of orders; qrand is a
--   sequence of numbers. TorrentClient/Blocks has requestBlocks and requestMore,
--   TorrentClient/Receiving blockReceived, pieceVerified, peerChoked and removeClient,
--   TorrentClient/Schedule scheduleDownloads with schedulePieceForClient. The clients are those of
--   PeerWire. A client that is aborted leaves later, by removeClient. TorrentClient/Invariant has the
--   slots as steps. TorrentClient/Uploads has scheduleUploads; TorrentClient/PeerList the merging of
--   addToPeerList, and TorrentClient/PeerList/Connecting connectToPeers with weighedFreePeers, whose
--   loop takes a peer off the list each time, which bounds its fuel. TorrentClient/Lifecycle has start,
--   stop, setPaused and fullVerificationDone, TorrentClient/Serving the peers' requests, announcements
--   and connections, TorrentClient/Serving/Rates the transfer rates. Not modelled: setTorrent, and the
--   dumped state.
--
-- MetaInfo: src/metainfo.cpp.
--   MetaInfo/Variant is how a QVariant is read; what Qt converts between texts and numbers is a
--   parameter. MetaInfo/Info has the members, clear, parse and totalSize, on the bencode parser of
--   Bencode/Parser; MetaInfo/Hashing hashFile and hashDirectory, for a positive piece length.
--   MetaInfo/Description is what a torrent file says, with its dictionary, written down independently.
--
-- TrackerClient: src/trackerclient.cpp.
--   TrackerClient/State has the members and what is read from others; QUrl, the texts of numbers and
--   the size of a form that was never set are parameters. TrackerClient/Query has start, startSeeding,
--   stop, timerEvent and fetchPeerList, TrackerClient/Reply httpRequestDone, with no value where the
--   compact list is read past its end or an int overflows. The requests are a list.
--
-- ConnectionManager: src/connectionmanager.cpp, with the connections as a list without repetitions.
--
-- TorrentServer: src/torrentserver.cpp, with the sockets of the rate controller. A torrent is its
--   state and its info hash. TorrentServer/Tracking has the calls as steps.
--
-- Not modelled: the user interface, the chat session and the copy of gloox, which hold no logic of
-- the file sharing; src/bencoder.cpp, which is not used.
pub mod FileManager
pub mod TorrentClient
pub mod RateController
pub mod PeerWire
pub mod Bencode
pub mod ConnectionManager
pub mod TorrentServer
pub mod TrackerClient
pub mod MetaInfo
pub mod Common
